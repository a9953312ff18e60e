-- ===== src/Dispatch/Types.antt =====
-- internal/dispatch/types.go
use daedalus.Prelude.{Str, Map, List}
use daedalus.A2a.{Json}

pub record TaskSpec : Type 0 where
  pub id : Str
  pub skill_id : Str
  pub tags : List Str
  pub prompt : Str
  pub metadata : Map Json
