-- ===== src/ApprovalApi/Path.antt =====
-- The path of a request, `_dispatch` of src/approval_api.py: `path.split("?")[0].strip("/")
-- .split("/")` without its empty parts.
use mathlib.Core.List.{append-nil}
use claudecodenodus.Base.{
  ℕ, Text, ◌≡◌, ◌≢◌, refl, ap, ◌∙◌, false, List, [], ◌∷◌, ◌++◌, arith, eqb, All, if◌then◌else◌,
}
use claudecodenodus.Base.Split.{split_on, nonempty, nonempty-cons, split_on-append}

-- `text.lstrip(sep)`
unfoldable pub lstrip : ℕ → Text → Text
lstrip sep [] = []
lstrip sep (c ∷ t) = let rest = lstrip sep t in if eqb c sep then rest else c ∷ t

attach : ℕ → ℕ → Text → Text
attach sep c [] = if eqb c sep then [] else c ∷ []
attach sep c (d ∷ t) = c ∷ d ∷ t

-- `text.rstrip(sep)`
unfoldable pub rstrip : ℕ → Text → Text
unfolding attach
rstrip sep [] = []
rstrip sep (c ∷ t) = attach sep c (rstrip sep t)

unfoldable pub segments : Text → List Text
unfolding split_on nonempty
segments t = let (first, rest) = split_on b'/' t in nonempty (first ∷ rest)

unfoldable pub path_parts : Text → List Text
unfolding split_on lstrip rstrip segments
path_parts path = segments (rstrip b'/' (lstrip b'/' (split_on b'?' path).0))

-- Stripping slashes at the left does not change the parts.
segments-lstrip : (t : Text) → segments (lstrip b'/' t) ≡ segments t
unfolding segments lstrip
segments-lstrip [] = refl
segments-lstrip (c ∷ t) = ground (arith, segments-lstrip t)

-- Stripping them at the right keeps the first part, and the others up to empty ones.
split-rstrip :
    (t : Text)
    → ((split_on b'/' (rstrip b'/' t)).0 ≡ (split_on b'/' t).0)
      × (nonempty (split_on b'/' (rstrip b'/' t)).1 ≡ nonempty (split_on b'/' t).1)
unfolding split_on rstrip nonempty
split-rstrip [] = (refl, refl)
split-rstrip (c ∷ t) = ground (arith, split-rstrip t)

segments-rstrip : (t : Text) → segments (rstrip b'/' t) ≡ segments t
unfolding segments
segments-rstrip t = ground (arith, split-rstrip t)

-- A part that a path can name: not empty, and with no slash and no question mark.
abbrev pub Plain : Text → Type 0
Plain t = (t ≢ []) × All (λ c. eqb c b'/' ≡ false) t × All (λ c. eqb c b'?' ≡ false) t

-- A path that names the parts: each with a slash before it.
unfoldable pub path_of : List Text → Text
path_of [] = []
path_of (p ∷ parts) = b'/' ∷ (p ++ path_of parts)

path_of-no_query :
    (parts : List Text) → All Plain parts → (split_on b'?' (path_of parts)).0 ≡ path_of parts
unfolding path_of split_on
path_of-no_query [] h = refl
path_of-no_query (p ∷ parts) h =
    ground (arith, split_on-append b'?' p (path_of parts) h.0.2, path_of-no_query parts h.1)

split-path_of :
    (parts : List Text)
    → All Plain parts
    → ((split_on b'/' (path_of parts)).0 ≡ [])
      × (nonempty (split_on b'/' (path_of parts)).1 ≡ parts)
unfolding path_of split_on
split-path_of [] h = (refl, unfold nonempty in refl)
split-path_of (p ∷ parts) h =
    let (first, rest) = split-path_of parts h.1 in
    (
      refl,
      rw (split_on-append b'/' p (path_of parts) h.0.1, first, append-nil)
          (nonempty-cons p _ h.0.0 ∙ ap (◌∷◌ p) rest),
    )

segments-path_of : (parts : List Text) → All Plain parts → segments (path_of parts) ≡ parts
unfolding segments
segments-path_of parts h = let (first, rest) = split-path_of parts h in rw (first, nonempty) rest

before_query :
    (path query : Text) → (split_on b'?' (path ++ b'?' ∷ query)).0 ≡ (split_on b'?' path).0
unfolding split_on
before_query [] query = refl
before_query (c ∷ path) query = ground (arith, before_query path query)

-- Whatever follows a question mark does not change the parts.
pub path_parts-query : (path query : Text) → path_parts (path ++ b'?' ∷ query) ≡ path_parts path
unfolding path_parts
path_parts-query path query = rw (before_query path query)

-- A path made of plain parts, with any query string, is split into those parts.
pub path_parts-path_of :
    (parts : List Text) (query : Text)
    → All Plain parts
    → path_parts (path_of parts ++ b'?' ∷ query) ≡ parts
unfolding path_parts
path_parts-path_of parts query h =
    simp (before_query, path_of-no_query parts h, segments-rstrip, segments-lstrip)
      (segments-path_of parts h)
