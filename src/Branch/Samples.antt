-- ===== src/Branch/Samples.antt =====
-- Small cases of internal/branch, and the theorems at them.
use daedalus.Prelude.{
  ◌≡◌, refl, true, none, some, List, [], ◌∷◌, Str, codes, str_eq, member, has_prefix, drop_len,
  trim_prefix, ok,
}
use daedalus.Branch.Naming.{
  BranchName, sanitize, replace_invalid, is_valid_branch_char, collapse, contains_pair,
  replace_pairs, trim_left, trim_right, new_branch, to_string, parse, parse_rest, split_slash,
}
use daedalus.Branch.Naming.Parsed.{parse-new_branch, to_string-parse}
use daedalus.Branch.Retry.{find_retries, matching, Among, find_retries-finds}
use daedalus.Branch.Worker.{
  Call, starts, completes, aborts, run, own_only, start, complete, abort, check_out, run-own_only,
}

program : Unit {0}
unfolding sanitize replace_invalid is_valid_branch_char collapse contains_pair replace_pairs
    trim_left trim_right new_branch parse parse_rest split_slash find_retries matching member str_eq
    has_prefix drop_len trim_prefix run start complete abort check_out
program = tt

sanitized : sanitize (codes "/my..feature//x-") ≡ codes "my-feature-x"
unfolding program
sanitized = refl

abbrev name : BranchName
name = record { feature = codes "my-x"; agent_name = codes "bot"; session_id = codes "0f" }

made : new_branch (codes "my x") (codes "bot") (codes "0f") ≡ ok name
unfolding program
made = refl

parsed : parse (codes "origin/agent/my-x/bot/0f") ≡ ok name
unfolding program
parsed = refl

abbrev refs : List Str
refs = codes "agent/other/bot/01" ∷ codes "agent/my-x/bot/0f" ∷ []

found : find_retries (ok refs) (codes "my x") (codes "bot") ≡ ok (name ∷ [])
unfolding program
found = refl

parse-new_branch_example : parse (to_string name) ≡ ok name
parse-new_branch_example = parse-new_branch (codes "my x") (codes "bot") (codes "0f") name made

to_string-parse_example :
    to_string name ≡ trim_prefix (codes "origin/agent/my-x/bot/0f") (codes "origin/")
to_string-parse_example = to_string-parse (codes "origin/agent/my-x/bot/0f") name parsed

find_retries-finds_example :
    (bs : List BranchName) × (find_retries (ok refs) (codes "my x") (codes "bot") ≡ ok bs)
    × Among name bs
find_retries-finds_example =
    find_retries-finds refs (codes "my x") (codes "bot") (codes "0f") name made
      (unfold program in refl)

abbrev calls : List Call
calls =
    completes (λ c. none)
    ∷ starts (λ c. none) (ok (codes "0f"))
    ∷ completes (λ c. some [])
    ∷ aborts (λ c. none)
    ∷ []

run-own_only_example :
    own_only
      (run calls (record {
        feature = codes "f";
        agent_name = codes "a";
        remote_url = [];
        branch = none;
        history = [];
      })).history
    ≡ true
run-own_only_example = run-own_only calls (codes "f") (codes "a") []
