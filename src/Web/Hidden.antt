-- ===== src/Web/Hidden.antt =====
-- What the extractor of src/web.py leaves out of a page.
use claudecodenodus.Base.{
  Text, lit, text_eq, ◌==◌, ==-refl, eq-of-==, ◌≡◌, refl, ap, ◌∙◌, true, false, not, ◌++◌, List, [],
  ◌∷◌, eqb, arith, Bool-cases, inl, inr,
}
use claudecodenodus.Base.Collections.{contains, keep}
use claudecodenodus.Web.Extractor.{
  Event, starttag, endtag, data_text, Extractor, newline, skip_tags, handle, handle_starttag,
  handle_endtag, handle_data, feed,
}

-- A well-nested part of a page without a title: text, an element, or one part after the other.
pub data Markup : Type 0 where
  nothing : Markup
  text : Text → Markup → Markup
  element : Text → Markup → Markup → Markup

unfoldable pub events : Markup → List Event
events nothing = []
events (text t rest) = data_text t ∷ events rest
events (element tag inner rest) = starttag tag ∷ (events inner ++ (endtag tag ∷ events rest))

abbrev pub NoTitle : Markup → Type 0
NoTitle nothing = Unit
NoTitle (text t rest) = NoTitle rest
NoTitle (element tag inner rest) = (tag == lit "title" ≡ false) × NoTitle inner × NoTitle rest

feed-append : (es fs : List Event) (s : Extractor) → feed (es ++ fs) s ≡ feed fs (feed es s)
unfolding feed
feed-append [] fs s = refl
feed-append (e ∷ es) fs s = feed-append es fs (handle e s)

-- The parts that are more than a line break.
unfoldable pub shown : List Text → List Text
unfolding keep
shown parts = keep (λ p. not (p == newline)) parts

shown-newline : (parts : List Text) → shown (parts ++ (newline ∷ [])) ≡ shown parts
unfolding shown keep
shown-newline [] = ground (arith, ==-refl newline)
shown-newline (p ∷ parts) = ground (arith, shown-newline parts)

-- Two states that differ by line breaks only.
abbrev pub Same : Extractor → Extractor → Type 0
Same s s' =
    (s'.skip_depth ≡ s.skip_depth)
    × (s'.title ≡ s.title)
    × (s'.in_title ≡ s.in_title)
    × (shown s'.parts ≡ shown s.parts)

Same-trans : (s t u : Extractor) → Same s t → Same t u → Same s u
Same-trans s t u (a, b, c, d) (a', b', c', d') = (a' ∙ a, b' ∙ b, c' ∙ c, d' ∙ d)

-- Leaving an element undoes what entering it did, line breaks aside.
handle_endtag-Same :
    (tag : Text) (s t : Extractor)
    → tag == lit "title" ≡ false
    → Same (handle_starttag tag s) t
    → Same s (handle_endtag tag t)
unfolding handle_starttag handle_endtag
handle_endtag-Same tag s t plain h = ground (arith, shown-newline s.parts, shown-newline t.parts)

-- Inside a skipped element.
abbrev Skipping : Extractor → Type 0
Skipping s = (eqb s.skip_depth 0 ≡ false) × (s.in_title ≡ false)

handle_starttag-Skipping :
    (tag : Text) (s : Extractor)
    → tag == lit "title" ≡ false
    → Skipping s
    → Skipping (handle_starttag tag s)
unfolding handle_starttag
handle_starttag-Skipping tag s plain h = ground arith

Same-Skipping : (s t : Extractor) → Same s t → Skipping s → Skipping t
Same-Skipping s t (a, b, c, d) (e, f) = (ap (λ n. eqb n 0) a ∙ e, c ∙ f)

markup-Same : (m : Markup) (s : Extractor) → NoTitle m → Skipping s → Same s (feed (events m) s)
unfolding feed events handle
markup-Same nothing s h k = (refl, refl, refl, refl)
markup-Same (text t rest) s h k =
    Same-trans s (handle_data t s) _ same (markup-Same rest _ h (Same-Skipping s _ same k))
  where
    same : Same s (handle_data t s)
    same = unfold handle_data in ground arith
markup-Same (element tag inner rest) s (plain, h, hr) k =
    let within : Extractor = feed (events inner) (handle_starttag tag s) in
    let left : Extractor = handle_endtag tag within in
    let same : Same s left =
      handle_endtag-Same tag s within plain
        (markup-Same inner (handle_starttag tag s) h (handle_starttag-Skipping tag s plain k)) in
    rw (feed-append (events inner) (endtag tag ∷ events rest) (handle_starttag tag s))
      (Same-trans s left _ same (markup-Same rest left hr (Same-Skipping s left same k)))

title_shown : contains (lit "title") skip_tags ≡ false
unfolding contains skip_tags lit ◌==◌
title_shown = refl

skip_apart : (tag : Text) → contains tag skip_tags ≡ true → tag == lit "title" ≡ false
skip_apart tag h = elim (Bool-cases (tag == lit "title")) [
  | inl e ↦ let title = eq-of-== tag (lit "title") e in cc title_shown
  | inr e ↦ e
]

entered :
    (tag : Text) (s : Extractor)
    → contains tag skip_tags ≡ true
    → s.in_title ≡ false
    → Skipping (handle_starttag tag s)
unfolding handle_starttag
entered tag s skip t = ground arith

-- A well-nested element with a skipped tag and no title in it, anywhere but inside a title, shows
-- nothing: it changes neither the title nor the depth, and adds line breaks at most to the text.
pub feed-hidden :
    (tag : Text) (inner : Markup) (s : Extractor)
    → contains tag skip_tags ≡ true
    → NoTitle inner
    → s.in_title ≡ false
    → Same s (feed (events (element tag inner nothing)) s)
unfolding feed events handle
feed-hidden tag inner s skip h t =
    rw (feed-append (events inner) (endtag tag ∷ []) (handle_starttag tag s)) (
      handle_endtag-Same tag s _ (skip_apart tag skip)
        (markup-Same inner (handle_starttag tag s) h (entered tag s skip t)))
