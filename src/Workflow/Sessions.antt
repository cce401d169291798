-- ===== src/Workflow/Sessions.antt =====
-- From the publish step of one session of workflows/research_task.nd to the recall step of another,
-- through the memory store and the recall tool.
use claudecodenodus.Base.{
  Text, text_eq, lit, ◌==◌, ==-refl, ◌≡◌, ◌≢◌, refl, sym, ap, ◌∙◌, inl, inr, true, false, some,
  List, [], ◌++◌, arith, if◌then◌else◌,
}
use claudecodenodus.Base.Dict.{lookup}
use claudecodenodus.Base.Collections.{contains}
use claudecodenodus.Exec.{ok, Result-cases}
use claudecodenodus.Exec.Blocks.{bind-ok, pure-ok}
use claudecodenodus.Json.{Json}
use claudecodenodus.Memory.Store.{Parent, IsLawful, Memory, has_row, tag_key_prefix}
use claudecodenodus.Memory.Store
use claudecodenodus.Workflow.{
  Engine, texts, node_key, tags_with, Run, on_memory, mem_put, mem_tag, remember,
}
use claudecodenodus.Workflow.Scripts.{published, approved_by, publish_approved, publish}
use claudecodenodus.Workflow.Retried.{publish_lem}
use claudecodenodus.Workflow.Marks.{Clones, put_texts}

-- A tag key is the key of no node.
tag_key_apart :
    (session rest : Text)
    → ((tag_key_prefix ++ node_key session rest) == node_key session rest) ≡ false
unfolding tag_key_prefix node_key lit ◌==◌
tag_key_apart session rest = refl

module _ (B : Parent) (E : Engine B) (lawful : IsLawful B) (clones : Clones B) where
  on_memory-ok :
      (key : Text) (v u : Json) (s s' : Run B E)
      → on_memory B E (Store.put B key v) s ≡ (ok u, s')
      → Store.put B key v s.memory ≡ (ok u, s'.memory)
  unfolding on_memory
  on_memory-ok key v u s s' h = ground arith

  pub put_value :
      (key : Text) (v stored : Json) (m after : Memory B) (j : Text)
      → Store.put B key v m ≡ (ok stored, after)
      → lookup j after.values ≡ (if key == j then some v else lookup j m.values)
  unfolding Store.put
  put_value key v stored m after j h = elim (Result-cases (B.put key v m.values)) [
    | inl ((copy, d), e) ↦
        ground (arith, clones key v copy m.values d e, lawful.lookup-put key j v copy m.values d e)
    | inr (f, e) ↦ ground arith
  ]

  two_writes :
      (session rest : Text) (v : Json) (tags : List Text) (a b : Json) (m m1 m2 : Memory B)
      → Store.put B (node_key session rest) v m ≡ (ok a, m1)
      → Store.put B (tag_key_prefix ++ node_key session rest) (texts tags) m1 ≡ (ok b, m2)
      → (lookup (node_key session rest) m2.values ≡ some v)
        × ((t : Text) → t ≢ [] → has_row (node_key session rest) t m2.tag_rows ≡ contains t tags)
  two_writes session rest v tags a b m m1 m2 p q =
      let key = node_key session rest in
      (
        put_value (tag_key_prefix ++ key) (texts tags) b m1 m2 key q
            ∙ rw (tag_key_apart session rest)
                (put_value key v a m m1 key p ∙ rw (==-refl key) refl),
        λ t named. put_texts B E clones key tags b m1 m2 q key t named ∙ rw (==-refl key) refl,
      )

  -- A remembered node has its value, and exactly its tags.
  remember_lem :
      (session rest : Text) (v : Json) (tags : List Text) (s s' : Run B E) (u : Text)
      → remember B E (node_key session rest) v tags s ≡ (ok u, s')
      → (lookup (node_key session rest) s'.memory.values ≡ some v)
        × ((t : Text)
            → t ≢ []
            → has_row (node_key session rest) t s'.memory.tag_rows ≡ contains t tags)
  unfolding remember mem_put mem_tag
  remember_lem session rest v tags s s' u h =
      let key = node_key session rest in
      let (a, s1, first, then_tag) = bind-ok _ _ s s' u h in
      let (b, s2, second, last) = bind-ok _ _ s1 s' u then_tag in
      let p = on_memory-ok key v a s s1 first in
      let q = on_memory-ok (tag_key_prefix ++ key) (texts tags) b s1 s2 second in
      let same : s2.memory ≡ s'.memory = ap (λ r. r.memory) (pure-ok key u s2 s' last).1 in
      rw same at (two_writes session rest v tags a b s.memory s1.memory s2.memory p q)

  -- The state of a run that has published: the node with the draft, tagged as final.
  pub publish_writes :
      (s s' : Run B E) (answer : Json)
      → approved_by B E s.flow.payload ≡ ok true
      → publish B E s ≡ (ok answer, s')
      → let key = node_key s.flow.session_id (lit "final") in
        (lookup key s'.memory.values ≡ some s.flow.draft)
        × ((t : Text)
            → t ≢ []
            → has_row key t s'.memory.tag_rows ≡ contains t (tags_with s.flow (lit "status:final")))
  unfolding publish_approved
  publish_writes s s' answer approved h =
      let (v, s1, once, after) = bind-ok _ _ s s' answer (sym (publish_lem B E s approved) ∙ h) in
      let (u, s2, remembered, last) = bind-ok _ _ s1 s' answer after in
      let same : s2.memory ≡ s'.memory =
        ap (λ r. r.memory) (pure-ok (published s.flow v) answer s2 s' last).1 in
      rw same at (
        remember_lem s.flow.session_id (lit "final") s.flow.draft
          (tags_with s.flow (lit "status:final")) s1 s2 u remembered)
