-- ===== src/TuiKit/Unicode.antt =====
-- packages/tui-kit/src/unicode.ts: the segmentation of a text into grapheme clusters. A text is the
-- list of its code points here, as `for (const ch of text)` walks them. The widths are left out.
pub mod Clusters
use qwen_harness.Prelude.{
  ℕ, Bool, true, false, not, ◌&&◌, ◌||◌, List, [], ◌∷◌, ◌++◌, Text, ◌==◌, leb, ltb, if◌then◌else◌,
  length, is_empty, take, drop,
}

-- What the package takes from the regular expressions of the platform: `\p{M}` for a code point, a
-- letter or number (`\p{L}|\p{N}`) in a grapheme, and `toLowerCase`. Nothing is assumed of them.
pub record Unicode : Type 0 where
  pub is_combining_mark : ℕ → Bool
  pub has_letter_or_number : Text → Bool
  pub to_lower_case : Text → Text

abbrev pub zwj : ℕ
zwj = 0x200d

abbrev between : ℕ → ℕ → ℕ → Bool
between lo hi cp = leb lo cp && leb cp hi

unfoldable pub is_regional_indicator : ℕ → Bool
is_regional_indicator cp = between 0x1f1e6 0x1f1ff cp

-- The cluster being read, and the two flags of the loop.
pub record Cluster : Type 0 where
  pub current : Text
  pub prev_was_zwj : Bool
  pub open_regional : Bool

abbrev pub no_cluster : Cluster
no_cluster = record { current = []; prev_was_zwj = false; open_regional = false }

module _ (unicode : Unicode) where
  unfoldable pub is_extend : ℕ → Bool
  is_extend cp =
      if ltb cp 0x0300
      then false
      else between 0xfe00 0xfe0f cp
        || (between 0xe0100 0xe01ef cp
            || (between 0x1f3fb 0x1f3ff cp || unicode.is_combining_mark cp))

  -- The loop's body: the clusters it pushes, and the cluster that it leaves.
  unfoldable pub take_char : Cluster → ℕ → List Text × Cluster
  take_char c cp =
      let fresh : Cluster = record {
        current = cp ∷ [];
        prev_was_zwj = cp == zwj;
        open_regional = is_regional_indicator cp;
      } in
      let longer : Text = c.current ++ cp ∷ [] in
      if is_empty c.current
      then ([], fresh)
      else if is_extend cp || cp == zwj
      then ([], record { current = longer; prev_was_zwj = cp == zwj; open_regional = false })
      else if c.prev_was_zwj
      then (
        [],
        record { current = longer; prev_was_zwj = false; open_regional = is_regional_indicator cp },
      )
      else if c.open_regional && is_regional_indicator cp
      then ([], record c { current = longer; open_regional = false })
      else (c.current ∷ [], fresh)

  unfoldable pub clusters_from : Cluster → Text → List Text
  unfolding take_char
  clusters_from c [] = if not (is_empty c.current) then c.current ∷ [] else []
  clusters_from c (cp ∷ text) =
      let (pushed, next) = take_char c cp in pushed ++ clusters_from next text

  unfoldable pub to_graphemes : Text → List Text
  unfolding clusters_from
  to_graphemes text = clusters_from no_cluster text

  unfoldable pub grapheme_count : Text → ℕ
  unfolding to_graphemes
  grapheme_count text = length (to_graphemes text)

-- `graphemes.join('')`
unfoldable pub concat : List Text → Text
concat [] = []
concat (x ∷ xs) = x ++ concat xs

-- `sliceGraphemes(graphemes, 0, to)` and `sliceGraphemes(graphemes, from)`
unfoldable pub slice_to : List Text → ℕ → Text
unfolding concat
slice_to graphemes to = concat (take to graphemes)

unfoldable pub slice_from : List Text → ℕ → Text
unfolding concat
slice_from graphemes from = concat (drop from graphemes)
