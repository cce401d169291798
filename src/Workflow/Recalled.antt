-- ===== src/Workflow/Recalled.antt =====
-- What one session of workflows/research_task.nd publishes, another session's recall finds.
use claudecodenodus.Base.{
  ℕ, zero, suc, Text, text_eq, lit, ◌==◌, ==_iff, ◌≡◌, refl, sym, ap, ◌∙◌, ◌⊎◌, inl, inr, true,
  false, ◌&&◌, some, List, [], ◌∷◌, ◌++◌, map, arith, length, length-map, take,
}
use claudecodenodus.Base.Int.{ℤ, pos}
use claudecodenodus.Base.Collections.{contains, keep, contains-keep, distinct}
use claudecodenodus.Json.{list_of}
use claudecodenodus.Memory.Topics.{topic_tags, topic_words}
use claudecodenodus.Memory.Topics.Words.{topic_tags_bounds}
use claudecodenodus.Memory.Store.{Parent, Memory, TagRow, has_row}
use claudecodenodus.Memory.Search.{
  Node, clean, outside, search_rows, search_by_tags, recall_by_tags,
}
use claudecodenodus.Memory.Search.Members.{carries_any, carries_all, search_rows_exact}
use claudecodenodus.Memory.Search.Recall.{is_live, recall_by_tags-take}
use claudecodenodus.Workflow.{text_json}

-- The tags that the workflow writes are texts that are not empty.
clean-topics :
    (ws : List Text)
    → clean (list_of (map text_json (map (λ w. lit "topic:" ++ w) ws)))
      ≡ map (λ w. lit "topic:" ++ w) ws
unfolding clean list_of lit
clean-topics [] = refl
clean-topics (w ∷ ws) = ap (λ rest. (lit "topic:" ++ w) ∷ rest) (clean-topics ws)

contains-nil : (t : Text) → contains t [] ≡ false
unfolding contains
contains-nil t = refl

contains-take :
    (n : ℕ) (t : Text) (ts : List Text)
    → contains t ts ≡ true
    → (contains t (take n ts) ≡ true) ⊎ (length (take n ts) ≡ n)
unfolding contains
contains-take zero t ts h = inr refl
contains-take (suc n) t [] h = ground (arith, contains-nil t)
contains-take (suc n) t (u ∷ us) h = ground (arith, contains-take n t us)

of-take : (n : ℕ) (t : Text) (ts : List Text) → contains t (take n ts) ≡ true → contains t ts ≡ true
unfolding contains
of-take zero t ts h = ground (arith, contains-nil t)
of-take (suc n) t [] h = h
of-take (suc n) t (u ∷ us) h = ground (arith, of-take n t us)

carries_any_intro :
    (t : Text) (ts : List Text) (key : Text) (rows : List TagRow)
    → contains t ts ≡ true
    → has_row key t rows ≡ true
    → carries_any ts key rows ≡ true
unfolding carries_any contains
carries_any_intro t [] key rows h r = h
carries_any_intro t (u ∷ us) key rows h r =
    ground (arith, ==_iff t u, carries_any_intro t us key rows)

final_items : clean (list_of (map text_json (lit "status:final" ∷ []))) ≡ lit "status:final" ∷ []
unfolding clean list_of lit
final_items = refl

module _ (P : Parent) (lower : Text → Text) (question : Text) (m : ℤ) (session : Text)
    (store : Memory P) where
  abbrev pub topics : List Text
  topics = topic_tags lower question m

  -- The query of the recall step.
  abbrev pub query : List Text
  query =
      search_by_tags P (list_of (map text_json topics)) (lit "any")
        (list_of (map text_json (lit "status:final" ∷ []))) (some session) store

  abbrev pub nodes : List (Node P)
  nodes =
      recall_by_tags P (list_of (map text_json topics)) (lit "any")
        (list_of (map text_json (lit "status:final" ∷ []))) (some session) (pos 3) store

  any_is_not_all : (lit "any" == lit "all") ≡ false
  unfolding lit ◌==◌
  any_is_not_all = refl

  topics_clean : clean (list_of (map text_json topics)) ≡ topics
  unfolding topic_tags
  topics_clean = clean-topics (topic_words m (lower question))

  search_exact :
      (ts : List Text) (key : Text)
      → distinct ts ≡ true
      → contains key (search_rows ts (lit "status:final" ∷ []) false (some session) store.tag_rows)
        ≡ (outside (some session) key
            && (has_row key (lit "status:final") store.tag_rows
                && carries_any ts key store.tag_rows))
  search_exact [] key d = unfold search_rows contains carries_any in ground arith
  search_exact (t ∷ ts) key d =
      search_rows_exact t ts (lit "status:final" ∷ []) false (some session) store.tag_rows key d
        (unfold distinct contains in refl)
      ∙ (unfold carries_all in ground arith)

  query_exact :
      (key : Text)
      → contains key query ≡ (
          outside (some session) key
          && (has_row key (lit "status:final") store.tag_rows
              && carries_any topics key store.tag_rows))
  unfolding search_by_tags
  query_exact key =
      rw (final_items, any_is_not_all, topics_clean)
        (search_exact topics key (topic_tags_bounds lower question m).0)

  node_keys : map (λ (node : Node P). node.key) nodes ≡ take 3 (keep (is_live P store) query)
  node_keys =
      recall_by_tags-take P store (list_of (map text_json topics))
        (list_of (map text_json (lit "status:final" ∷ []))) (lit "any") (some session) (pos 3)

  -- What the recall gives is published, of another session, and on one of the topics.
  pub node_exact :
      (key : Text)
      → contains key (map (λ (node : Node P). node.key) nodes) ≡ true
      → (outside (some session) key ≡ true)
        × (has_row key (lit "status:final") store.tag_rows ≡ true)
        × (carries_any topics key store.tag_rows ≡ true)
  node_exact key h = ground (
    arith,
    of-take 3 key (keep (is_live P store) query) (rw node_keys at h),
    contains-keep key (is_live P store) query,
    query_exact key,
  )

  -- A published node of another session on one of the topics is found, or three others are.
  pub node_found :
      (key topic : Text)
      → outside (some session) key ≡ true
      → contains topic topics ≡ true
      → has_row key topic store.tag_rows ≡ true
      → has_row key (lit "status:final") store.tag_rows ≡ true
      → is_live P store key ≡ true
      → (contains key (map (λ (node : Node P). node.key) nodes) ≡ true) ⊎ (length nodes ≡ 3)
  node_found key topic o c r f l =
      let there : contains key (keep (is_live P store) query) ≡ true = ground (
        arith,
        contains-keep key (is_live P store) query,
        query_exact key,
        carries_any_intro topic topics key store.tag_rows c r,
      ) in
      elim (contains-take 3 key (keep (is_live P store) query) there) [
        | inl found ↦ inl (rw node_keys found)
        | inr full ↦ inr (sym (length-map (λ (node : Node P). node.key) nodes) ∙ rw node_keys full)
      ]
