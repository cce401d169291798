-- ===== src/Memory/Store/Tags.antt =====
-- The tag index of src/memory.py: what tagging a key does to its rows and to those of other keys.
use claudecodenodus.Base.{
  Text, ◌==◌, ==_iff, ==-refl, ◌≡◌, refl, Bool, false, not, ◌&&◌, ◌||◌, none, some, List, [], ◌∷◌,
  ◌++◌, arith, if◌then◌else◌,
}
use claudecodenodus.Exec.{ok}
use claudecodenodus.Json.{Json, null, bool, int, float, str, list, dict, Items, nil, cons}
use claudecodenodus.Memory.Store.{
  Parent, Memory, TagRow, tag_key_prefix, strip_prefix, has_row, delete_rows, insert_row,
  insert_tags, index_tags, index_put, put, delete,
}

-- The text stands among the tags of a value, and is not empty.
unfoldable pub names_tag : Text → Items → Bool
names_tag t nil = false
names_tag t (cons (str []) tags) = names_tag t tags
names_tag t (cons (str (c ∷ u)) tags) = t == (c ∷ u) || names_tag t tags
names_tag t (cons tag tags) = names_tag t tags

unfoldable pub tagged_by : Text → Json → Bool
unfolding names_tag
tagged_by t (list tags) = names_tag t tags
tagged_by t other = false

has_row-delete :
    (key k t : Text) (rows : List TagRow)
    → has_row k t (delete_rows key rows) ≡ (not (k == key) && has_row k t rows)
unfolding has_row delete_rows
has_row-delete key k t [] = ground arith
has_row-delete key k t ((j, u) ∷ rows) =
    ground (arith, ==_iff j k, ==_iff j key, ==_iff k key, has_row-delete key k t rows)

has_row-append :
    (k t : Text) (rows more : List TagRow)
    → has_row k t (rows ++ more) ≡ (has_row k t rows || has_row k t more)
unfolding has_row
has_row-append k t [] more = refl
has_row-append k t ((j, u) ∷ rows) more = ground (arith, has_row-append k t rows more)

has_row-one : (key u k t : Text) → has_row k t ((key, u) ∷ []) ≡ (k == key && t == u)
unfolding has_row
has_row-one key u k t = ground (arith, ==_iff key k, ==_iff k key, ==_iff u t, ==_iff t u)

has_row-insert :
    (key u k t : Text) (rows : List TagRow)
    → has_row k t (insert_row key u rows) ≡ ((k == key && t == u) || has_row k t rows)
unfolding insert_row
has_row-insert key u k t rows = ground (
  arith,
  has_row-append k t rows ((key, u) ∷ []),
  has_row-one key u k t,
  ==_iff k key,
  ==_iff t u,
)

has_row-insert_tags :
    (key k t : Text) (tags : Items) (rows : List TagRow)
    → has_row k t (insert_tags key tags rows) ≡ ((k == key && names_tag t tags) || has_row k t rows)
unfolding insert_tags names_tag
has_row-insert_tags key k t nil rows = ground arith
has_row-insert_tags key k t (cons (str []) tags) rows = has_row-insert_tags key k t tags rows
has_row-insert_tags key k t (cons (str (c ∷ u)) tags) rows = ground (
  arith,
  has_row-insert_tags key k t tags (insert_row key (c ∷ u) rows),
  has_row-insert key (c ∷ u) k t rows,
)
has_row-insert_tags key k t (cons null tags) rows = has_row-insert_tags key k t tags rows
has_row-insert_tags key k t (cons (bool b) tags) rows = has_row-insert_tags key k t tags rows
has_row-insert_tags key k t (cons (int z) tags) rows = has_row-insert_tags key k t tags rows
has_row-insert_tags key k t (cons (float m e) tags) rows = has_row-insert_tags key k t tags rows
has_row-insert_tags key k t (cons (list xs) tags) rows = has_row-insert_tags key k t tags rows
has_row-insert_tags key k t (cons (dict fs) tags) rows = has_row-insert_tags key k t tags rows

has_row-index_tags :
    (key k t : Text) (v : Json) (rows : List TagRow)
    → has_row k t (index_tags key v rows) ≡ (if k == key then tagged_by t v else has_row k t rows)
unfolding index_tags tagged_by
has_row-index_tags key k t (list tags) rows =
    ground
      (arith, has_row-insert_tags key k t tags (delete_rows key rows), has_row-delete key k t rows)
has_row-index_tags key k t v rows = ground (arith, has_row-delete key k t rows)

pub strip_prefix-append : (p key : Text) → strip_prefix p (p ++ key) ≡ some key
unfolding strip_prefix
strip_prefix-append [] key = refl
strip_prefix-append (c ∷ p) key = ground (arith, ==-refl (c ∷ []), strip_prefix-append p key)

module _ (B : Parent) (s : Memory B) (k t : Text) where
  -- Putting a value at the tag key of `target` gives that key exactly the tags that the stored
  -- list names, texts that are not empty, and leaves the tags of all other keys.
  pub put-tags :
      (target : Text) (v stored : Json) (after : Memory B)
      → put B (tag_key_prefix ++ target) v s ≡ (ok stored, after)
      → has_row k t after.tag_rows
        ≡ (if k == target then tagged_by t stored else has_row k t s.tag_rows)
  unfolding put index_put
  put-tags target v stored after h = ground (
    arith,
    strip_prefix-append tag_key_prefix target,
    has_row-index_tags target k t stored s.tag_rows,
  )

  -- Deleting a key that is no tag key, or deleting its tag key, leaves the key without tags, and
  -- all other keys with theirs.
  delete-tags :
      (key : Text)
      → strip_prefix tag_key_prefix key ≡ none
      → (has_row k t (delete B key s).1.tag_rows ≡ (not (k == key) && has_row k t s.tag_rows))
        × (has_row k t (delete B (tag_key_prefix ++ key) s).1.tag_rows
            ≡ (not (k == key) && has_row k t s.tag_rows))
  unfolding delete
  delete-tags key plain = (
    ground (arith, has_row-delete key k t s.tag_rows),
    ground (arith, strip_prefix-append tag_key_prefix key, has_row-delete key k t s.tag_rows),
  )
