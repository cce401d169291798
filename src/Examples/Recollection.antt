-- ===== src/Examples/Recollection.antt =====
-- A store with two research sessions (src/memory.py) over a base class that is a plain dictionary,
-- with JSON values as the column.
use claudecodenodus.Base.{
  inr, max, Text, lit, text_eq, ◌==◌, ◌≡◌, refl, Bool, true, false, ◌&&◌, Option, none, some, List,
  [], ◌∷◌, ◌++◌, map, take, length, All, ◌≤◌, arith, if◌then◌else◌,
}
use claudecodenodus.Base.Int.{negsuc, clamp}
use claudecodenodus.Base.Dict.{
  Dict, lookup, insert, erase, UniqueKeys, lookup-insert, lookup-erase, insert-UniqueKeys,
}
use claudecodenodus.Base.Split.{split_on, nonempty}
use claudecodenodus.Base.Collections.{contains, keep, distinct, dedup}
use claudecodenodus.Exec.{ok}
use claudecodenodus.Json.{Json, null, str, list, Items, nil, cons}
use claudecodenodus.Memory.Topics.{
  topic_tags, topic_words, split_words, collect, is_noise, is_word_char, reaches, stopwords,
  session_of, max_topic_tags,
}
use claudecodenodus.Memory.Topics.Words
use claudecodenodus.Memory.Topics.Words.{words, is_tagged}
use claudecodenodus.Memory.Store.{
  Parent, IsLawful, Memory, TagRow, tag_key_prefix, strip_prefix, has_row, delete_rows, insert_row,
  insert_tags, index_tags, index_put, put, delete, load_snapshot, reopen,
}
use claudecodenodus.Memory.Store.Mirror
use claudecodenodus.Memory.Store.Mirror.{
  IsMirrored, put_value, delete_key, snapshot, execute_all, Command,
}
use claudecodenodus.Memory.Search.{
  search_rows, search_by_tags, recall_by_tags, recall_from, Node, tags_for, tags_of, outside, clean,
}
use claudecodenodus.Memory.Search.Members
use claudecodenodus.Memory.Search.Members.{carries_all, carries_any}
use claudecodenodus.Memory.Search.Ranking
use claudecodenodus.Memory.Search.Ranking.{Ranked}
use claudecodenodus.Memory.Search.Recall
use claudecodenodus.Memory.Search.Recall.{is_live, Faithful}

abbrev rebuild : Dict Text Json → Dict Text Json
rebuild [] = []
rebuild ((key, v) ∷ d) = insert key v (rebuild d)

abbrev snapshot_of : Option (Dict Text Json) → Dict Text Json
snapshot_of none = []
snapshot_of (some d) = rebuild d

abbrev or_null : Option Json → Json
or_null none = null
or_null (some v) = v

abbrev present : Option Json → Bool
present none = false
present (some v) = true

abbrev pub parent : Parent
parent = record {
  put = λ key v d. ok (v, insert key v d);
  delete = λ key d. (present (lookup key d), or_null (lookup key d), erase key d);
  load_snapshot = snapshot_of;
  get = λ key d. or_null (lookup key d);
  Column = Json;
  dumps = λ v. v;
  loads = some;
}

rebuild-UniqueKeys : (d : Dict Text Json) → UniqueKeys (rebuild d)
rebuild-UniqueKeys [] = tt
rebuild-UniqueKeys ((key, v) ∷ d) = insert-UniqueKeys key v (rebuild d) (rebuild-UniqueKeys d)

snapshot_of-UniqueKeys : (values : Option (Dict Text Json)) → UniqueKeys (snapshot_of values)
snapshot_of-UniqueKeys none = tt
snapshot_of-UniqueKeys (some d) = rebuild-UniqueKeys d

pub parent-IsLawful : IsLawful parent
parent-IsLawful = record {
  lookup-put = λ key j v stored d d' h. ground (arith, lookup-insert key j v d);
  lookup-delete = λ key j d. lookup-erase key j d;
  unique_snapshot = snapshot_of-UniqueKeys;
  get-lookup = λ key v d h. rw h refl;
  loads-dumps = λ v. refl;
}

abbrev pub fresh : Memory parent
fresh = record { values = []; value_rows = []; tag_rows = [] }

fresh-IsMirrored : IsMirrored parent fresh
unfolding lookup
fresh-IsMirrored = record { unique = tt; at = λ k. refl }

abbrev a : Text
a = lit "research/a/plan"

abbrev b : Text
b = lit "research/b/plan"

abbrev llm : Text
llm = lit "topic:llm"

abbrev note : Text
note = lit "note"

-- The tags of a list.
abbrev tags : List Text → Items
tags [] = nil
tags (t ∷ ts) = cons (str t) (tags ts)

abbrev commands : List Command
commands =
    put_value a (str (lit "A"))
    ∷ put_value (tag_key_prefix ++ a) (list (tags (llm ∷ note ∷ [])))
    ∷ put_value b (str (lit "B"))
    ∷ put_value (tag_key_prefix ++ b) (list (tags (llm ∷ [])))
    ∷ delete_key (lit "missing")
    ∷ []

memory_code : Unit {0}
unfolding execute_all put delete load_snapshot index_put index_tags insert_tags insert_row
    delete_rows has_row strip_prefix tag_key_prefix lookup insert erase keep lit ◌==◌ contains
    distinct dedup search_rows search_by_tags recall_by_tags recall_from tags_for tags_of clean
    session_of split_on carries_all carries_any
memory_code = tt

reopen-execute_all_example :
    lookup a (reopen parent (execute_all parent commands fresh)).values
    ≡ lookup a (execute_all parent commands fresh).values
reopen-execute_all_example =
    Mirror.reopen-execute_all parent parent-IsLawful commands fresh a fresh-IsMirrored

abbrev rows : List TagRow
rows = (a, llm) ∷ (a, note) ∷ (b, llm) ∷ []

abbrev pub stored : Memory parent
stored = record {
  values = (a, str (lit "A")) ∷ (b, str (lit "B")) ∷ [];
  value_rows = (a, str (lit "A")) ∷ (b, str (lit "B")) ∷ [];
  tag_rows = rows;
}

commands_run : (execute_all parent commands fresh).tag_rows ≡ rows
unfolding memory_code
commands_run = refl

different : distinct (llm ∷ note ∷ []) ≡ true
unfolding memory_code
different = refl

abbrev no_tags : List Text
no_tags = []

no_duplicate : distinct no_tags ≡ true
unfolding memory_code
no_duplicate = refl

search_rows_exact_example :
    contains a (search_rows (llm ∷ note ∷ []) [] true (some (lit "b")) rows) ≡ (
      outside (some (lit "b")) a
      && (carries_all [] a rows
          && (if true
              then carries_all (llm ∷ note ∷ []) a rows
              else carries_any (llm ∷ note ∷ []) a rows)))
search_rows_exact_example =
    Members.search_rows_exact llm (note ∷ []) [] true (some (lit "b")) rows a different no_duplicate

twice_wanted : distinct (llm ∷ llm ∷ []) ≡ false
unfolding memory_code
twice_wanted = refl

search_rows_duplicate_example : search_rows (llm ∷ llm ∷ []) [] true none rows ≡ []
search_rows_duplicate_example =
    Members.search_rows_duplicate (llm ∷ llm ∷ []) [] true none rows (inr (refl, twice_wanted))

search_rows-Ranked_example :
    Ranked (note ∷ llm ∷ []) rows (search_rows (note ∷ llm ∷ []) [] false none rows)
    × (distinct (search_rows (note ∷ llm ∷ []) [] false none rows) ≡ true)
search_rows-Ranked_example = Ranking.search_rows-Ranked (note ∷ llm ∷ []) [] false none rows

search_runs : search_rows (note ∷ llm ∷ []) [] false none rows ≡ a ∷ b ∷ []
unfolding memory_code
search_runs = refl

recall_by_tags-take_example :
    map
      (λ (node : Node parent). node.key)
      (recall_by_tags parent (tags (llm ∷ [])) (lit "any") nil none (negsuc 0) stored)
    ≡ take (max 1 (clamp (negsuc 0))) (
        keep
          (is_live parent stored)
          (search_by_tags parent (tags (llm ∷ [])) (lit "any") nil none stored))
recall_by_tags-take_example =
    Recall.recall_by_tags-take parent stored (tags (llm ∷ [])) nil (lit "any") none (negsuc 0)

-- Two stores in one file.
-- A text of lower-case letters is lowered already.
abbrev lowered : Text → Text
lowered t = t

abbrev question : Text
question = lit "what is llm safety?"

topics_code : Unit {0}
unfolding topic_tags topic_words split_words collect is_noise is_word_char reaches stopwords
    split_on nonempty lit ◌==◌ contains
topics_code = tt

safety_tagged : is_tagged lowered question max_topic_tags (lit "safety") ≡ true
unfolding topics_code
safety_tagged = refl

topic_tags_sound_example :
    (contains (lit "safety") (words (lowered question)) ≡ true)
    × All (λ c. is_word_char c ≡ true) (lit "safety")
    × (3 ≤ length (lit "safety"))
    × (contains (lit "safety") stopwords ≡ false)
topic_tags_sound_example =
    Words.topic_tags_sound lowered question max_topic_tags (lit "safety") safety_tagged
