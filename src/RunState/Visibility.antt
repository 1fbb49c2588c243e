-- ===== src/RunState/Visibility.antt =====
-- run-state/visibility.ts: the commits that are published. Publishing is one insertion into a set.
use secure_home_agent_platfo.Prelude.{
  ◌≡◌, refl, Bool, true, false, Option, none, some, List, [], ◌∷◌, ite, Str, Str-discrete,
}

pub record CommitLedger : Type 0 where
  pub published : List Str

abbrev pub empty : CommitLedger
empty = record { published = [] }

has : Str → List Str → Bool
has c [] = false
has c (d ∷ ds) = ite (Str-discrete d c) true (has c ds)

unfoldable pub is_published : Str → CommitLedger → Bool
unfolding has
is_published c v = has c v.published

unfoldable pub publish : Str → CommitLedger → CommitLedger
publish c v = record { published = c ∷ v.published }

-- A record with no commit is visible on its own account.
unfoldable pub is_visible : CommitLedger → Option Str → Bool
is_visible v none = true
is_visible v (some c) = is_published c v

pub is_published-publish :
    (c d : Str) (v : CommitLedger)
    → is_published d (publish c v) ≡ ite (Str-discrete c d) true (is_published d v)
unfolding is_published publish
is_published-publish c d v = refl
