-- ===== src/Web/Layout/Visible.antt =====
-- The layout of a page (src/web.py) loses no visible character.
use mathlib.Core.List.{append-nil}
use claudecodenodus.Base.{
  ℕ, Text, ◌≡◌, refl, sym, ◌∙◌, Bool, true, false, ◌++◌, List, [], ◌∷◌, map, arith, eqb,
  if◌then◌else◌,
}
use claudecodenodus.Web.Layout.{
  is_break, is_space, is_blank, concat, extend, split_lines, squash, trim_start, trim_end, trim,
  squeeze, join_lines, get_text,
}

-- The characters that are no white space, in their order.
unfoldable pub visible : Text → Text
visible [] = []
visible (c ∷ t) = let rest = visible t in if is_space c then rest else c ∷ rest

break-space : (c : ℕ) → is_break c ≡ true → is_space c ≡ true
unfolding is_break is_space
break-space c h = ground arith

blank-space : (c : ℕ) → is_blank c ≡ true → is_space c ≡ true
unfolding is_blank is_space
blank-space c h = ground arith

return-break : (c : ℕ) → eqb c 13 ≡ true → is_break c ≡ true
unfolding is_break
return-break c h = ground arith

visible-append : (t u : Text) → visible (t ++ u) ≡ visible t ++ visible u
unfolding visible
visible-append [] u = refl
visible-append (c ∷ t) u = ground (arith, visible-append t u)

concat-extend : (c : ℕ) (ls : List Text) → concat (extend c ls) ≡ c ∷ concat ls
unfolding concat
concat-extend c [] = refl
concat-extend c (l ∷ ls) = refl

visible-space : (c : ℕ) (t : Text) → is_space c ≡ true → visible (c ∷ t) ≡ visible t
unfolding visible
visible-space c t h = rw h

space_32 : is_space 32 ≡ true
unfolding is_space
space_32 = refl

space_10 : is_space 10 ≡ true
unfolding is_space
space_10 = refl

visible-split_lines : (t : Text) → visible (concat (split_lines t)) ≡ visible t
unfolding split_lines visible concat
visible-split_lines [] = refl
visible-split_lines (c ∷ t) =
    ground
      (arith, visible-split_lines t, break-space c, return-break c, concat-extend c (split_lines t))

visible-squash : (t : Text) → visible (squash t) ≡ visible t
unfolding squash visible
visible-squash [] = refl
visible-squash (c ∷ t) =
    ground (arith, visible-squash t, blank-space c, space_32, visible-space 32 (squash t))

visible-trim_start : (t : Text) → visible (trim_start t) ≡ visible t
unfolding trim_start visible
visible-trim_start [] = refl
visible-trim_start (c ∷ t) = ground (arith, visible-trim_start t)

visible-trim_end : (t : Text) → visible (trim_end t) ≡ visible t
unfolding trim_end visible
visible-trim_end [] = refl
visible-trim_end (c ∷ t) = ground (arith, visible-trim_end t)

visible-trim : (t : Text) → visible (trim t) ≡ visible t
unfolding trim
visible-trim t = visible-trim_end (trim_start t) ∙ visible-trim_start t

visible-map :
    (ls : List Text) → visible (concat (map (λ l. trim (squash l)) ls)) ≡ visible (concat ls)
unfolding concat
visible-map [] = refl
visible-map (l ∷ ls) =
    visible-append (trim (squash l)) _
    ∙ rw (visible-trim (squash l), visible-squash l, visible-map ls)
        (sym (visible-append l (concat ls)))

visible-squeeze :
    (blank : Bool) (ls : List Text) → visible (concat (squeeze blank ls)) ≡ visible (concat ls)
unfolding concat squeeze
visible-squeeze blank [] = refl
visible-squeeze blank ([] ∷ ls) = ground (arith, visible-squeeze true ls)
visible-squeeze blank ((c ∷ t) ∷ ls) =
    visible-append (c ∷ t) (concat (squeeze false ls))
    ∙ rw (visible-squeeze false ls) (sym (visible-append (c ∷ t) (concat ls)))

visible-join_lines : (ls : List Text) → visible (join_lines ls) ≡ visible (concat ls)
unfolding concat join_lines
visible-join_lines [] = refl
visible-join_lines (l ∷ []) = rw append-nil
visible-join_lines (l ∷ m ∷ ls) =
    visible-append l (10 ∷ join_lines (m ∷ ls))
    ∙ rw (visible-space 10 (join_lines (m ∷ ls)) space_10, visible-join_lines (m ∷ ls))
        (sym (visible-append l (concat (m ∷ ls))))

-- The text of a page has the visible characters of the parts that were collected, in their order.
pub visible-get_text : (parts : List Text) → visible (get_text parts) ≡ visible (concat parts)
unfolding get_text
visible-get_text parts =
    visible-trim (join_lines lines)
    ∙ visible-join_lines lines
    ∙ visible-squeeze false (map (λ l. trim (squash l)) (split_lines (concat parts)))
    ∙ visible-map (split_lines (concat parts))
    ∙ visible-split_lines (concat parts)
  where
    lines : List Text
    lines = squeeze false (map (λ l. trim (squash l)) (split_lines (concat parts)))
