-- ===== src/Web/Layout/Tidy.antt =====
-- The layout of a page (src/web.py) has no white space at its ends and no two blank lines in a row.
use claudecodenodus.Base.{
  ℕ, ◌+◌, ◌≤◌, Text, ◌≡◌, refl, ◌∙◌, Bool, true, false, not, ◌&&◌, ◌++◌, List, [], ◌∷◌, map, arith,
  eqb, leb, All, if◌then◌else◌,
}
use claudecodenodus.Web.Layout.{
  is_break, is_space, concat, extend, split_lines, squash, trim_start, keep_char, trim_end, trim,
  squeeze, join_lines, get_text,
}

-- No more than two line feeds in a row, after `n` of them.
unfoldable pub quiet : ℕ → Text → Bool
quiet n [] = true
quiet n (c ∷ t) =
    let more = quiet (n + 1) t in
    let fewer = quiet 0 t in if eqb c 10 then leb (n + 1) 2 && more else fewer

unfoldable pub starts_shown : Text → Bool
starts_shown [] = true
starts_shown (c ∷ t) = not (is_space c)

unfoldable pub ends_shown : Text → Bool
ends_shown [] = true
ends_shown (c ∷ []) = not (is_space c)
ends_shown (c ∷ d ∷ t) = ends_shown (d ∷ t)

abbrev Line : Text → Type 0
Line l = All (λ c. eqb c 10 ≡ false) l

extend-Line : (c : ℕ) (ls : List Text) → eqb c 10 ≡ false → All Line ls → All Line (extend c ls)
extend-Line c [] e h = ground arith
extend-Line c (l ∷ ls) e h = ground arith

feed-break : (c : ℕ) → is_break c ≡ false → eqb c 10 ≡ false
unfolding is_break
feed-break c h = ground arith

split_lines-Line : (t : Text) → All Line (split_lines t)
unfolding split_lines
split_lines-Line [] = tt
split_lines-Line (c ∷ t) =
    ground (arith, split_lines-Line t, extend-Line c (split_lines t), feed-break c)

squash-Line : (t : Text) → Line t → Line (squash t)
unfolding squash
squash-Line [] h = tt
squash-Line (c ∷ t) h = ground (arith, squash-Line t)

trim_start-Line : (t : Text) → Line t → Line (trim_start t)
unfolding trim_start
trim_start-Line [] h = tt
trim_start-Line (c ∷ t) h = ground (arith, trim_start-Line t)

keep_char-Line : (c : ℕ) (t : Text) → eqb c 10 ≡ false → Line t → Line (keep_char c t)
keep_char-Line c [] e h = ground arith
keep_char-Line c (d ∷ t) e h = (e, h)

trim_end-Line : (t : Text) → Line t → Line (trim_end t)
unfolding trim_end
trim_end-Line [] h = tt
trim_end-Line (c ∷ t) h = keep_char-Line c (trim_end t) h.0 (trim_end-Line t h.1)

map-Line : (ls : List Text) → All Line ls → All Line (map (λ l. trim (squash l)) ls)
unfolding trim
map-Line [] h = tt
map-Line (l ∷ ls) h = (trim_end-Line _ (trim_start-Line _ (squash-Line l h.0)), map-Line ls h.1)

quiet_fewer : (m n : ℕ) (t : Text) → m ≤ n → quiet n t ≡ true → quiet m t ≡ true
unfolding quiet
quiet_fewer m n [] le h = refl
quiet_fewer m n (c ∷ t) le h = ground (arith, quiet_fewer (m + 1) (n + 1) t)

-- A line, then more: the count starts again unless the line is empty.
quiet-Line :
    (n : ℕ) (c : ℕ) (l rest : Text) → Line (c ∷ l) → quiet n ((c ∷ l) ++ rest) ≡ quiet 0 rest
unfolding quiet
quiet-Line n c [] rest h = ground arith
quiet-Line n c (d ∷ l) rest h = ground (arith, quiet-Line 0 d l rest h.1)

quiet_alone : (n : ℕ) (l : Text) → Line l → quiet n l ≡ true
unfolding quiet
quiet_alone n [] h = refl
quiet_alone n (c ∷ l) h = ground (arith, quiet_alone 0 l h.1)

-- A line before more lines.
quiet-join_lines :
    (n : ℕ) (c : ℕ) (l : Text) (ls : List Text)
    → Line (c ∷ l)
    → quiet 1 (join_lines ls) ≡ true
    → quiet n (join_lines ((c ∷ l) ∷ ls)) ≡ true
unfolding join_lines
quiet-join_lines n c l [] h q = quiet_alone n (c ∷ l) h
quiet-join_lines n c l (m ∷ ls) h q =
    quiet-Line n c l (10 ∷ join_lines (m ∷ ls)) h ∙ (unfold quiet in q)

quiet-empty :
    (n : ℕ) (ls : List Text)
    → n ≤ 1
    → quiet (n + 1) (join_lines ls) ≡ true
    → quiet n (join_lines ([] ∷ ls)) ≡ true
unfolding join_lines
quiet-empty n [] le q = unfold quiet in refl
quiet-empty n (m ∷ ls) le q = unfold quiet in ground arith

-- The loop over the lines leaves at most one empty line, or none after one.
quiet-squeeze :
    (ls : List Text)
    → All Line ls
    → (quiet 1 (join_lines (squeeze false ls)) ≡ true)
      × (quiet 2 (join_lines (squeeze true ls)) ≡ true)
unfolding squeeze
quiet-squeeze [] h = unfold quiet join_lines in (refl, refl)
quiet-squeeze ([] ∷ ls) h =
    let (one, two) = quiet-squeeze ls h.1 in
    (quiet-empty 1 (squeeze true ls) (omega arith) two, two)
quiet-squeeze ((c ∷ l) ∷ ls) h =
    let (one, two) = quiet-squeeze ls h.1 in
    (
      quiet-join_lines 1 c l (squeeze false ls) h.0 one,
      quiet-join_lines 2 c l (squeeze false ls) h.0 one,
    )

quiet_tail : (c : ℕ) (t : Text) → quiet 0 (c ∷ t) ≡ true → quiet 0 t ≡ true
unfolding quiet
quiet_tail c t h = ground (arith, quiet_fewer 0 1 t (omega arith))

quiet-trim_start : (t : Text) → quiet 0 t ≡ true → quiet 0 (trim_start t) ≡ true
unfolding trim_start
quiet-trim_start [] h = h
quiet-trim_start (c ∷ t) h = ground (arith, quiet-trim_start t, quiet_tail c t h)

quiet-keep_char :
    (n c : ℕ) (t u : Text)
    → ((m : ℕ) → quiet m t ≡ true → quiet m u ≡ true)
    → quiet n (c ∷ t) ≡ true
    → quiet n (keep_char c u) ≡ true
unfolding quiet
quiet-keep_char n c t [] k h = ground arith
quiet-keep_char n c t (d ∷ u) k h = ground (arith, k (n + 1), k 0)

quiet-trim_end : (n : ℕ) (t : Text) → quiet n t ≡ true → quiet n (trim_end t) ≡ true
unfolding trim_end
quiet-trim_end n [] h = h
quiet-trim_end n (c ∷ t) h = quiet-keep_char n c t (trim_end t) (λ m. quiet-trim_end m t) h

starts-trim_start : (t : Text) → starts_shown (trim_start t) ≡ true
unfolding starts_shown trim_start
starts-trim_start [] = refl
starts-trim_start (c ∷ t) = ground (arith, starts-trim_start t)

starts-keep_char : (c : ℕ) (t : Text) → is_space c ≡ false → starts_shown (keep_char c t) ≡ true
unfolding starts_shown
starts-keep_char c [] h = ground arith
starts-keep_char c (d ∷ t) h = ground arith

starts-trim_end : (t : Text) → starts_shown t ≡ true → starts_shown (trim_end t) ≡ true
unfolding starts_shown trim_end
starts-trim_end [] h = refl
starts-trim_end (c ∷ t) h = starts-keep_char c (trim_end t) (ground arith)

ends-keep_char : (c : ℕ) (t : Text) → ends_shown t ≡ true → ends_shown (keep_char c t) ≡ true
unfolding ends_shown
ends-keep_char c [] h = ground arith
ends-keep_char c (d ∷ t) h = h

ends-trim_end : (t : Text) → ends_shown (trim_end t) ≡ true
unfolding trim_end
ends-trim_end [] = unfold ends_shown in refl
ends-trim_end (c ∷ t) = ends-keep_char c (trim_end t) (ends-trim_end t)

-- The text of a page neither starts nor ends with white space, and never has more than two line
-- feeds in a row, whatever parts were collected.
pub get_text_tidy :
    (parts : List Text)
    → (quiet 0 (get_text parts) ≡ true)
      × (starts_shown (get_text parts) ≡ true)
      × (ends_shown (get_text parts) ≡ true)
unfolding get_text trim
get_text_tidy parts = (
  quiet-trim_end 0 (trim_start text)
      (quiet-trim_start text (quiet_fewer 0 1 text (omega arith) (quiet-squeeze lines shaped).0)),
  starts-trim_end (trim_start text) (starts-trim_start text),
  ends-trim_end (trim_start text),
)
  where
    lines : List Text
    lines = map (λ l. trim (squash l)) (split_lines (concat parts))

    text : Text
    text = join_lines (squeeze false lines)

    shaped : All Line lines
    shaped = map-Line (split_lines (concat parts)) (split_lines-Line (concat parts))
