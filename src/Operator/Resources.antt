-- ===== src/Operator/Resources.antt =====
-- operator/internal/controller/agentruntime_controller.go: the resources of the agent's container, as
-- strings for a ScaledJob and parsed for a Deployment. resource.ParseQuantity is a
-- parameter.
use daedalus.Prelude.{
  Option, none, some, List, [], ◌∷◌, ◌++◌, if◌then◌else◌, is_nil, Str, codes, is_empty, Map, Result,
  ok, err, ◌>>=◌,
}
use daedalus.Operator.Types.{ResourceQuantity, ResourceSpec}
use daedalus.Operator.Value.{Value, text, object, fields}

-- A string under a key, unless it is empty.
abbrev pub filled : Str → Str → List (Str × Value)
filled k s = if is_empty s then [] else (k, text s) ∷ []

abbrev pub amounts : ResourceQuantity → List (Str × Value)
amounts q = filled (codes "cpu") q.cpu ++ filled (codes "memory") q.memory

-- The amounts under a key, if there are any.
abbrev pub amounts_at : Str → Option ResourceQuantity → List (Str × Value)
amounts_at k q = elim q [
  | none ↦ []
  | some a ↦ if is_nil (amounts a) then [] else (k, object (fields (amounts a))) ∷ []
]

-- buildResourceRequirements
unfoldable pub build_resource_requirements : Option ResourceSpec → Option Value
build_resource_requirements r = elim r [
  | none ↦ none
  | some spec ↦
      let res =
        amounts_at (codes "requests") spec.requests ++ amounts_at (codes "limits") spec.limits in
      if is_nil res then none else some (object (fields res))
]

-- corev1.ResourceRequirements: a nil list is none.
pub record ResourceRequirements : Type 0 where
  pub requests : Option (Map Str)
  pub limits : Option (Map Str)

-- resource.ParseQuantity, to a quantity in its canonical text, and strconv.Quote.
pub record Parser : Type 0 where
  pub parse : Str → Result Str Str
  pub quote : Str → Str

-- parseQuantity
abbrev pub parse_quantity : Parser → Str → Result Str Str
parse_quantity p s = if is_empty s then ok [] else p.parse s

-- `if s != "" { q, err := parseQuantity(s); ...; list[k] = q }`
abbrev pub parse_filled : Parser → Str → Str → Str → Result Str (Map Str)
parse_filled p label k s = if is_empty s then ok [] else elim (parse_quantity p s) [
  | err e ↦ err (codes "parsing " ++ label ++ codes " " ++ p.quote s ++ codes ": " ++ e)
  | ok q ↦ ok ((k, q) ∷ [])
]

abbrev pub parse_amounts : Parser → Str → Option ResourceQuantity → Result Str (Option (Map Str))
parse_amounts parse list q = elim q [
  | none ↦ ok none
  | some a ↦ parse_filled parse (list ++ codes ".cpu") (codes "cpu") a.cpu >>= λ cpu.
      parse_filled parse (list ++ codes ".memory") (codes "memory") a.memory >>= λ memory.
      ok (some (cpu ++ memory))
]

-- buildResourceRequirementsTyped
unfoldable pub build_resource_requirements_typed :
    Parser → Option ResourceSpec → Result Str ResourceRequirements
build_resource_requirements_typed parse r = elim r [
  | none ↦ ok (record { requests = none; limits = none })
  | some spec ↦ parse_amounts parse (codes "requests") spec.requests >>= λ requests.
      parse_amounts parse (codes "limits") spec.limits >>= λ limits.
      ok (record { requests = requests; limits = limits })
]
