-- ===== src/Workflow/Marks.antt =====
-- Which keys carry which tags after the memory writes of workflows/research_task.nd.
use claudecodenodus.Base.{
  Text, text_eq, lit, ◌==◌, ==_iff, ◌≡◌, ◌≢◌, refl, ap, ◌∙◌, inl, inr, false, none, some, List, [],
  ◌∷◌, ◌++◌, All, eqb, map, arith, if◌then◌else◌,
}
use claudecodenodus.Base.Int.{ℤ}
use claudecodenodus.Base.Dict.{Dict}
use claudecodenodus.Base.Collections.{contains}
use claudecodenodus.Exec.{Fault, ok, err, Result-cases}
use claudecodenodus.Exec.Blocks.{Keeps}
use claudecodenodus.Json.{Json, list_of}
use claudecodenodus.Memory.Topics.{topic_tags, topic_words, session_of}
use claudecodenodus.Memory.Topics.Words.{session_of_key}
use claudecodenodus.Memory.Store.{Parent, Memory, tag_key_prefix, strip_prefix, has_row, index_put}
use claudecodenodus.Memory.Store
use claudecodenodus.Memory.Store.Tags.{names_tag, tagged_by, put-tags}
use claudecodenodus.Workflow.{Engine, texts, node_key, Run, on_memory}

-- `put` stores a copy of the value.
abbrev pub Clones : Parent → Type 0
Clones B =
    (key : Text) (v stored : Json) (d d' : Dict Text Json)
    → B.put key v d ≡ ok (stored, d')
    → stored ≡ v

pub tagged_by-texts : (t : Text) (ts : List Text) → t ≢ [] → tagged_by t (texts ts) ≡ contains t ts
unfolding tagged_by names_tag contains list_of
tagged_by-texts t [] h = refl
tagged_by-texts t ([] ∷ ts) h = ground (arith, ==_iff t [], tagged_by-texts t ts h)
tagged_by-texts t ((c ∷ u) ∷ ts) h = ground (arith, tagged_by-texts t ts h)

-- The key of a node is no tag key.
pub strip_prefix-node_key :
    (session rest : Text) → strip_prefix tag_key_prefix (node_key session rest) ≡ none
unfolding strip_prefix node_key lit ◌==◌ tag_key_prefix
strip_prefix-node_key session rest = refl

-- The key of a session's node names its session.
pub session_of-node_key :
    (session rest : Text)
    → All (λ c. eqb c b'/' ≡ false) session
    → session_of (node_key session rest) ≡ some session
unfolding node_key lit
session_of-node_key session rest plain = session_of_key session rest plain

topic_not_final : (w : Text) → (lit "status:final" == (lit "topic:" ++ w)) ≡ false
unfolding lit ◌==◌
topic_not_final w = refl

no_word_final :
    (ws : List Text) → contains (lit "status:final") (map (λ w. lit "topic:" ++ w) ws) ≡ false
unfolding contains
no_word_final [] = refl
no_word_final (w ∷ ws) = rw (topic_not_final w) (no_word_final ws)

-- No topic tag is the tag of published nodes.
pub topic_tags-unmarked :
    (lower : Text → Text) (question : Text) (m : ℤ)
    → contains (lit "status:final") (topic_tags lower question m) ≡ false
unfolding topic_tags
topic_tags-unmarked lower question m = no_word_final (topic_words m (lower question))

module _ (B : Parent) (E : Engine B) where
  put-err :
      (key : Text) (v : Json) (m : Memory B) (f : Fault)
      → (Store.put B key v m).0 ≡ err f
      → (Store.put B key v m).1 ≡ m
  unfolding Store.put
  put-err key v m f h = elim (Result-cases (B.put key v m.values)) [
    | inl (done, e) ↦ ground arith
    | inr (g, e) ↦ ground arith
  ]

  put-stored :
      Clones B
      → (key : Text) (v stored : Json) (m after : Memory B)
      → Store.put B key v m ≡ (ok stored, after)
      → stored ≡ v
  unfolding Store.put
  put-stored clones key v stored m after h = elim (Result-cases (B.put key v m.values)) [
    | inl ((copy, d), e) ↦ ground (arith, clones key v copy m.values d e)
    | inr (g, e) ↦ ground arith
  ]

  -- A write keeps what it keeps when it returns: one that throws has written nothing.
  pub Keeps-put :
      (Q : Run B E → Type 0) (key : Text) (v : Json)
      → ((s : Run B E) (stored : Json) (after : Memory B)
          → Store.put B key v s.memory ≡ (ok stored, after)
          → Q s
          → Q (record s { memory = after }))
      → Keeps Q (on_memory B E (Store.put B key v))
  unfolding on_memory
  Keeps-put Q key v rest = record {
    after = λ s q. elim (Result-cases (Store.put B key v s.memory).0) [
      | inl (stored, e) ↦
          rest s stored (Store.put B key v s.memory).1
            (ap (λ r. (r, (Store.put B key v s.memory).1)) e) q
      | inr (f, e) ↦ rw (put-err key v s.memory f e) q
    ];
  }

  -- A write at the key of a node changes no tag.
  pub put_node :
      (session rest : Text) (v stored : Json) (m after : Memory B)
      → Store.put B (node_key session rest) v m ≡ (ok stored, after)
      → after.tag_rows ≡ m.tag_rows
  unfolding Store.put index_put
  put_node session rest v stored m after h = ground (arith, strip_prefix-node_key session rest)

  -- Tagging a key gives it exactly these tags, and leaves those of other keys.
  pub put_texts :
      Clones B
      → (key : Text) (tags : List Text) (stored : Json) (m after : Memory B)
      → Store.put B (tag_key_prefix ++ key) (texts tags) m ≡ (ok stored, after)
      → (k t : Text) → t ≢ []
      → has_row k t after.tag_rows ≡ (if k == key then contains t tags else has_row k t m.tag_rows)
  put_texts clones key tags stored m after h k t named =
      put-tags B m k t key (texts tags) stored after h
      ∙ rw (put-stored clones _ _ stored m after h, tagged_by-texts t tags named) refl
