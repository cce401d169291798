-- ===== src/Web/Extractor.antt =====
-- `_TextExtractor` of src/web.py: the visible text and the title of a page. The HTML parser is not
-- part of the repository; the model starts from the calls that it makes of the handlers.
use claudecodenodus.Base.{
  ℕ, ◌+◌, ◌-◌, Text, lit, text_eq, ◌==◌, Bool, true, false, ◌++◌, List, [], ◌∷◌, eqb, if◌then◌else◌,
}
use claudecodenodus.Base.Collections.{contains}

-- `_SKIP_TAGS`
unfoldable pub skip_tags : List Text
skip_tags =
    lit "script"
    ∷ lit "style"
    ∷ lit "noscript"
    ∷ lit "head"
    ∷ lit "template"
    ∷ lit "svg"
    ∷ lit "nav"
    ∷ lit "aside"
    ∷ lit "form"
    ∷ lit "button"
    ∷ []

-- `_BLOCK_TAGS`
unfoldable pub block_tags : List Text
block_tags =
    lit "p"
    ∷ lit "div"
    ∷ lit "br"
    ∷ lit "li"
    ∷ lit "ul"
    ∷ lit "ol"
    ∷ lit "tr"
    ∷ lit "table"
    ∷ lit "section"
    ∷ lit "article"
    ∷ lit "header"
    ∷ lit "footer"
    ∷ lit "h1"
    ∷ lit "h2"
    ∷ lit "h3"
    ∷ lit "h4"
    ∷ lit "h5"
    ∷ lit "h6"
    ∷ lit "blockquote"
    ∷ lit "pre"
    ∷ []

-- A call of a handler.
pub data Event : Type 0 where
  starttag : Text → Event
  endtag : Text → Event
  data_text : Text → Event

pub record Extractor : Type 0 where
  pub title : Text
  pub parts : List Text
  pub skip_depth : ℕ
  pub in_title : Bool

abbrev pub new_extractor : Extractor
new_extractor = record { title = []; parts = []; skip_depth = 0; in_title = false }

abbrev pub newline : Text
newline = b'\n' ∷ []

unfoldable pub handle_starttag : Text → Extractor → Extractor
handle_starttag tag s =
    if contains tag skip_tags
    then record s { skip_depth = s.skip_depth + 1 }
    else if tag == lit "title"
    then record s { in_title = true }
    else if contains tag block_tags
    then record s { parts = s.parts ++ (newline ∷ []) }
    else s

-- Subtraction stops at 0, as `max(0, depth - 1)` does.
unfoldable pub handle_endtag : Text → Extractor → Extractor
handle_endtag tag s =
    if contains tag skip_tags
    then record s { skip_depth = s.skip_depth - 1 }
    else if tag == lit "title"
    then record s { in_title = false }
    else if contains tag block_tags
    then record s { parts = s.parts ++ (newline ∷ []) }
    else s

unfoldable pub handle_data : Text → Extractor → Extractor
handle_data text s =
    if s.in_title
    then record s { title = s.title ++ text }
    else if eqb s.skip_depth 0
    then record s { parts = s.parts ++ (text ∷ []) }
    else s

unfoldable pub handle : Event → Extractor → Extractor
unfolding handle_starttag handle_endtag handle_data
handle (starttag tag) s = handle_starttag tag s
handle (endtag tag) s = handle_endtag tag s
handle (data_text text) s = handle_data text s

unfoldable pub feed : List Event → Extractor → Extractor
unfolding handle
feed [] s = s
feed (e ∷ es) s = feed es (handle e s)
