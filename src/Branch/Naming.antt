-- ===== src/Branch/Naming.antt =====
-- internal/branch/naming.go. Strings are valid UTF-8: a rune outside ASCII is valid in a branch name
-- and written back as its bytes, so Sanitize works byte by byte.
pub mod Clean
pub mod Parsed
use daedalus.Prelude.{
  ℕ, zero, suc, ◌==◌, leb, Bool, true, false, not, ◌&&◌, ◌||◌, Option, none, some, List, [], ◌∷◌,
  ◌++◌, length, if◌then◌else◌, Str, codes, is_empty, has_prefix, drop_len, trim_prefix, Result, ok,
  err, ◌>>◌, fail_if,
}

abbrev pub prefix : Str
prefix = codes "agent/"

abbrev pub hyphen : ℕ
hyphen = 45

abbrev pub slash : ℕ
slash = 47

pub record BranchName : Type 0 where
  pub feature : Str
  pub agent_name : Str
  pub session_id : Str

abbrev pub one_of : ℕ → Str → Bool
one_of r [] = false
one_of r (x ∷ xs) = r == x || one_of r xs

-- The runes of the switch: space ~ ^ : ? * [ \ . @ /
abbrev pub invalid_chars : Str
invalid_chars = 32 ∷ 126 ∷ 94 ∷ 58 ∷ 63 ∷ 42 ∷ 91 ∷ 92 ∷ 46 ∷ 64 ∷ slash ∷ []

-- isValidBranchChar
unfoldable pub is_valid_branch_char : ℕ → Bool
is_valid_branch_char r = if leb r 31 || r == 127 then false else not (one_of r invalid_chars)

-- The loop over the runes.
unfoldable pub replace_invalid : Str → Str
unfolding is_valid_branch_char
replace_invalid [] = []
replace_invalid (r ∷ rs) = (if is_valid_branch_char r then r else hyphen) ∷ replace_invalid rs

abbrev pub starts_hyphen : Str → Bool
starts_hyphen [] = false
starts_hyphen (x ∷ xs) = x == hyphen

-- strings.Contains(result, "--")
unfoldable pub contains_pair : Str → Bool
contains_pair [] = false
contains_pair (x ∷ xs) = (x == hyphen && starts_hyphen xs) || contains_pair xs

-- strings.ReplaceAll(result, "--", "-"): pairs from the left, without overlap.
unfoldable pub replace_pairs : Str → Str
replace_pairs [] = []
replace_pairs (x ∷ []) = x ∷ []
replace_pairs (x ∷ y ∷ s) =
    let paired = replace_pairs s in
    let single = replace_pairs (y ∷ s) in
    if x == hyphen && y == hyphen then hyphen ∷ paired else x ∷ single

-- The loop that collapses hyphens, on fuel.
unfoldable pub collapse : ℕ → Str → Str
unfolding contains_pair replace_pairs
collapse zero result = result
collapse (suc f) result =
    let next = collapse f (replace_pairs result) in if contains_pair result then next else result

-- strings.Trim(result, "-")
unfoldable pub trim_left : Str → Str
trim_left [] = []
trim_left (x ∷ xs) = let rest = trim_left xs in if x == hyphen then rest else x ∷ xs

unfoldable pub trim_right : Str → Str
trim_right [] = []
trim_right (x ∷ xs) =
    let rest = trim_right xs in if x == hyphen && is_empty rest then [] else x ∷ rest

-- Sanitize; the fuel is the length, by which each round of the loop takes at least one.
unfoldable pub sanitize : Str → Str
unfolding replace_invalid collapse trim_left trim_right
sanitize s =
    let replaced = replace_invalid s in trim_right (trim_left (collapse (length s) replaced))

pub data NameError : Type 0 where
  empty_feature empty_agent_name empty_session_id : NameError

-- New
unfoldable pub new_branch : Str → Str → Str → Result NameError BranchName
unfolding sanitize
new_branch feature agent_name session_id = do
  fail_if (is_empty (sanitize feature)) empty_feature
  fail_if (is_empty (sanitize agent_name)) empty_agent_name
  fail_if (is_empty (sanitize session_id)) empty_session_id
  ok (record {
    feature = sanitize feature;
    agent_name = sanitize agent_name;
    session_id = sanitize session_id;
  })

-- String
abbrev pub to_string : BranchName → Str
to_string b = prefix ++ (b.feature ++ (codes "/" ++ (b.agent_name ++ (codes "/" ++ b.session_id))))

-- What stands before and behind the first slash, if there is one.
unfoldable pub split_slash : Str → Option (Str × Str)
split_slash [] = none
split_slash (x ∷ xs) =
    let deeper : Option (Str × Str) = elim (split_slash xs) [
      | none ↦ none
      | some (a, b) ↦ some (x ∷ a, b)
    ] in
    if x == slash then some ([], xs) else deeper

pub data ParseError : Type 0 where
  no_prefix : ParseError
  segments : ℕ → ParseError
  empty_segment : ℕ → ParseError

-- The part of Parse behind the prefix: strings.SplitN(rest, "/", 3), and its checks.
unfoldable pub parse_rest : Str → Result ParseError BranchName
unfolding split_slash
parse_rest rest = elim (split_slash rest) [
  | none ↦ err (segments 1)
  | some (feature, more) ↦ elim (split_slash more) [
    | none ↦ err (segments 2)
    | some (agent_name, session_id) ↦ do
      fail_if (is_empty feature) (empty_segment 0)
      fail_if (is_empty agent_name) (empty_segment 1)
      fail_if (is_empty session_id) (empty_segment 2)
      ok (record { feature = feature; agent_name = agent_name; session_id = session_id })
  ]
]

-- Parse
unfoldable pub parse : Str → Result ParseError BranchName
unfolding trim_prefix parse_rest has_prefix
parse ref =
    let stripped = trim_prefix ref (codes "origin/") in
    if has_prefix stripped prefix then parse_rest (trim_prefix stripped prefix) else err no_prefix
