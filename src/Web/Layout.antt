-- ===== src/Web/Layout.antt =====
-- `_TextExtractor.get_text` of src/web.py: the layout of the collected text. Python's `splitlines`
-- and `strip` are written out over code points.
pub mod Visible
pub mod Tidy
use claudecodenodus.Base.{
  ℕ, Text, Bool, true, false, not, ◌&&◌, ◌||◌, ◌++◌, List, [], ◌∷◌, map, leb, eqb, if◌then◌else◌,
}

-- A character at which `splitlines` ends a line.
unfoldable pub is_break : ℕ → Bool
is_break c =
    (leb 10 c && leb c 13)
    || ((leb 0x1c c && leb c 0x1e) || (eqb c 0x85 || (eqb c 0x2028 || eqb c 0x2029)))

-- A character that `strip` removes.
unfoldable pub is_space : ℕ → Bool
is_space c =
    (leb 9 c && leb c 13)
    || ((leb 0x1c c && leb c 0x20)
        || (eqb c 0x85
            || (eqb c 0xa0
                || (eqb c 0x1680
                    || ((leb 0x2000 c && leb c 0x200a)
                        || (eqb c 0x2028
                            || (eqb c 0x2029
                                || (eqb c 0x202f || (eqb c 0x205f || eqb c 0x3000)))))))))

-- `[ \t\f\v]`
unfoldable pub is_blank : ℕ → Bool
is_blank c = eqb c 0x20 || (eqb c 9 || (eqb c 12 || eqb c 11))

-- `"".join(parts)`
unfoldable pub concat : List Text → Text
concat [] = []
concat (p ∷ parts) = p ++ concat parts

-- A character before the first line.
abbrev pub extend : ℕ → List Text → List Text
extend c [] = (c ∷ []) ∷ []
extend c (l ∷ ls) = (c ∷ l) ∷ ls

-- A line feed follows.
abbrev pub feeds : Text → Bool
feeds [] = false
feeds (c ∷ t) = eqb c 10

-- `raw.splitlines()`; a carriage return before a line feed ends no line of its own.
unfoldable pub split_lines : Text → List Text
split_lines [] = []
split_lines (c ∷ t) =
    let rest = split_lines t in
    if eqb c 13 && feeds t then rest else if is_break c then [] ∷ rest else extend c rest

abbrev pub blank_first : Text → Bool
blank_first [] = false
blank_first (c ∷ t) = is_blank c

-- `re.sub(r"[ \t\f\v]+", " ", line)`
unfoldable pub squash : Text → Text
squash [] = []
squash (c ∷ t) =
    let rest = squash t in
    if is_blank c then (if blank_first t then rest else b' ' ∷ rest) else c ∷ rest

-- `text.lstrip()`
unfoldable pub trim_start : Text → Text
trim_start [] = []
trim_start (c ∷ t) = let rest = trim_start t in if is_space c then rest else c ∷ t

abbrev pub keep_char : ℕ → Text → Text
keep_char c [] = if is_space c then [] else c ∷ []
keep_char c (d ∷ t) = c ∷ d ∷ t

-- `text.rstrip()`
unfoldable pub trim_end : Text → Text
trim_end [] = []
trim_end (c ∷ t) = keep_char c (trim_end t)

-- `text.strip()`
unfoldable pub trim : Text → Text
trim t = trim_end (trim_start t)

-- The loop over the lines; `blank` says that the line before was empty.
unfoldable pub squeeze : Bool → List Text → List Text
squeeze blank [] = []
squeeze blank ([] ∷ lines) = let rest = squeeze true lines in if blank then rest else [] ∷ rest
squeeze blank ((c ∷ t) ∷ lines) = (c ∷ t) ∷ squeeze false lines

-- `"\n".join(lines)`
unfoldable pub join_lines : List Text → Text
join_lines [] = []
join_lines (l ∷ []) = l
join_lines (l ∷ m ∷ lines) = l ++ (b'\n' ∷ join_lines (m ∷ lines))

unfoldable pub get_text : List Text → Text
get_text parts =
    trim (join_lines (squeeze false (map (λ l. trim (squash l)) (split_lines (concat parts)))))
