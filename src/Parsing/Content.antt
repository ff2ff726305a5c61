-- ===== src/Parsing/Content.antt =====
-- What markdown_to_blocks keeps of a text: every character but white space, the marks of headings and
-- nothing else, in the text's order.
use doc_chat_platform.Text.Squeezing.{
  gather, squeeze, gather-append, squeeze-blank, squeeze-strip, squeeze-join,
}
use doc_chat_platform.Text.{Text, strip, join, splitlines}
use doc_chat_platform.Sql.{delete_where}
use doc_chat_platform.Models.{Block, BlockKind}
use doc_chat_platform.Base.{
  [], none, some, true, refl, Bool, List, Option, if◌then◌else◌, ◌≡◌, ◌∷◌, ◌++◌, if_ind, append-nil,
  ap, not, ◌∙◌, ◌&&◌, is_empty, sym, append_assoc, false, inl, inr, Bool-cases,
}
use doc_chat_platform.Parsing.{
  Scan, scan_line, open_section, text_line, switch_table, heading_or_text, flush_buffer, fence_line,
  Heading, add_line, push_block, is_table_row, is_fence, match_heading, kind_now, path_of,
  markdown_to_blocks, scan_lines, empty_scan, last_kind,
}

-- The texts of blocks in their order, without white space.
abbrev pub written : List Block → Text
written [] = []
written (b ∷ bs) = squeeze b.text ++ written bs

-- What a line says outside a fence: a heading its title, another line itself.
abbrev pub said : Text → Option Heading → Text
said line none = squeeze line
said line (some h) = squeeze h.title

abbrev pub said_in : Bool → Text → Text
said_in fenced line =
    if is_fence line
    then squeeze line
    else if fenced
    then squeeze line
    else said line (match_heading line)

-- What lines say, in and out of fences.
abbrev pub spoken : Bool → List Text → Text
spoken fenced [] = []
spoken fenced (line ∷ lines) =
    said_in fenced line ++ spoken (if is_fence line then not fenced else fenced) lines

-- What the blocks and the buffer hold.
abbrev held : Scan → Text
held s = written s.blocks ++ gather s.buffer

written-append : (bs cs : List Block) → written (bs ++ cs) ≡ written bs ++ written cs
written-append [] cs = refl
written-append (b ∷ bs) cs =
    ap (◌++◌ (squeeze b.text)) (written-append bs cs)
    ∙ sym (append_assoc (squeeze b.text) (written bs) (written cs))

written-push_block :
    (kind : BlockKind) (path : List Text) (t : Text) (bs : List Block)
    → written (push_block kind path t bs) ≡ written bs ++ squeeze t
unfolding delete_where
written-push_block kind path [] bs = sym (append-nil (written bs))
written-push_block kind path (c ∷ cs) bs =
    written-append bs _ ∙ ap (◌++◌ (written bs)) (append-nil (squeeze (c ∷ cs)))

held-flush : (kind : BlockKind) (s : Scan) → held (flush_buffer kind s) ≡ held s
unfolding flush_buffer
held-flush kind s =
    append-nil _
    ∙ written-push_block kind (path_of s) (strip (join (10 ∷ []) s.buffer)) s.blocks
    ∙ ap (◌++◌ (written s.blocks)) (squeeze-strip (join (10 ∷ []) s.buffer) ∙ squeeze-join s.buffer)

held-add_line : (line : Text) (s : Scan) → held (add_line line s) ≡ held s ++ squeeze line
held-add_line line s =
    ap (◌++◌ (written s.blocks))
      (gather-append s.buffer (line ∷ []) ∙ ap (◌++◌ (gather s.buffer)) (append-nil (squeeze line)))
    ∙ sym (append_assoc (written s.blocks) (gather s.buffer) (squeeze line))

held-switch : (row : Bool) (s : Scan) → held (switch_table row s) ≡ held s
unfolding switch_table
held-switch row s =
    if_ind (λ r. held r ≡ held s) (row && not s.is_table) (λ _. held-flush (kind_now s) s)
      (λ _.
        if_ind (λ r. held r ≡ held s) (not row && s.is_table) (λ _. held-flush BlockKind.table s)
          (λ _. refl))

held-text_line : (line : Text) (s : Scan) → held (text_line line s) ≡ held s ++ squeeze line
unfolding text_line
held-text_line line s =
    if_ind (λ r. held r ≡ held s ++ squeeze line) (is_empty (strip line))
      (λ e.
        held-flush (kind_now s) s
        ∙ sym (append-nil (held s))
        ∙ ap (◌++◌ (held s)) (sym (squeeze-blank line e)))
      (λ _. held-add_line line s)

held-open :
    (h : Heading) (kind : BlockKind) (s : Scan)
    → held (open_section h (flush_buffer kind s)) ≡ held s ++ squeeze h.title
unfolding open_section flush_buffer
held-open h kind s =
    append-nil _
    ∙ written-append (flush_buffer kind s).blocks _
    ∙ ap (◌++◌ (written (flush_buffer kind s).blocks)) (append-nil (squeeze h.title))
    ∙ ap (λ r. r ++ squeeze h.title) (sym (append-nil _) ∙ held-flush kind s)

held-heading_or_text :
    (line : Text) (h : Option Heading) (s : Scan)
    → held (heading_or_text line h s) ≡ held s ++ said line h
unfolding heading_or_text
held-heading_or_text line none s =
    held-text_line line (switch_table (is_table_row line) s)
    ∙ ap (λ r. r ++ squeeze line) (held-switch (is_table_row line) s)
held-heading_or_text line (some h) s = held-open h (kind_now s) s

held-fence_line : (line : Text) (s : Scan) → held (fence_line line s) ≡ held s ++ squeeze line
held-fence_line line s =
    if_ind (λ r. held r ≡ held s ++ squeeze line) s.in_fence
      (λ _. held-flush BlockKind.code (add_line line s) ∙ held-add_line line s)
      (λ _.
        held-add_line line (record (flush_buffer (kind_now s) s) { in_fence = true })
        ∙ ap (λ r. r ++ squeeze line) (held-flush (kind_now s) s))

held-scan_line :
    (s : Scan) (line : Text) → held (scan_line s line) ≡ held s ++ said_in s.in_fence line
unfolding scan_line
held-scan_line s line = elim (Bool-cases (is_fence line)) [
  | inl e ↦ rw e (held-fence_line line s)
  | inr e ↦ rw e (outside s.in_fence refl)
]
  where
    outside :
        (f : Bool)
        → s.in_fence ≡ f
        → held (if f then add_line line s else heading_or_text line (match_heading line) s)
          ≡ held s ++ (if f then squeeze line else said line (match_heading line))
    outside true e = held-add_line line s
    outside false e = held-heading_or_text line (match_heading line) s

in_fence-switch : (row : Bool) (s : Scan) → (switch_table row s).in_fence ≡ s.in_fence
unfolding switch_table flush_buffer
in_fence-switch row s =
    if_ind {A = Scan} (λ r. r.in_fence ≡ s.in_fence) (row && not s.is_table) (λ _. refl)
      (λ _.
        if_ind {A = Scan} (λ r. r.in_fence ≡ s.in_fence) (not row && s.is_table) (λ _. refl)
          (λ _. refl))

in_fence-heading_or_text :
    (line : Text) (h : Option Heading) (s : Scan) → (heading_or_text line h s).in_fence ≡ s.in_fence
unfolding heading_or_text text_line open_section flush_buffer
in_fence-heading_or_text line none s =
    if_ind {A = Scan} (λ r. r.in_fence ≡ s.in_fence) (is_empty (strip line))
      (λ _. in_fence-switch (is_table_row line) s) (λ _. in_fence-switch (is_table_row line) s)
in_fence-heading_or_text line (some h) s = refl

in_fence-scan_line :
    (s : Scan) (line : Text)
    → (scan_line s line).in_fence ≡ (if is_fence line then not s.in_fence else s.in_fence)
unfolding scan_line flush_buffer
in_fence-scan_line s line = elim (Bool-cases (is_fence line)) [
  | inl e ↦ rw e (fenced s.in_fence refl)
  | inr e ↦ rw e (outside s.in_fence refl)
]
  where
    fenced : (f : Bool) → s.in_fence ≡ f → (fence_line line s).in_fence ≡ not f
    fenced true e = rw e refl
    fenced false e = rw e refl

    outside :
        (f : Bool)
        → s.in_fence ≡ f
        → (if f then add_line line s else heading_or_text line (match_heading line) s).in_fence ≡ f
    outside true e = e
    outside false e = in_fence-heading_or_text line (match_heading line) s ∙ e

held-scan_lines :
    (s : Scan) (lines : List Text) → held (scan_lines s lines) ≡ held s ++ spoken s.in_fence lines
unfolding scan_lines
held-scan_lines s [] = sym (append-nil (held s))
held-scan_lines s (line ∷ lines) =
    held-scan_lines (scan_line s line) lines
    ∙ ap (λ r. held (scan_line s line) ++ spoken r lines) (in_fence-scan_line s line)
    ∙ ap (λ r. r ++ spoken (if is_fence line then not s.in_fence else s.in_fence) lines)
        (held-scan_line s line)
    ∙ append_assoc (held s) (said_in s.in_fence line) _

-- The blocks of a text hold what its lines say, in their order and each once: a heading its title,
-- any other line itself, fences and the lines in them included; only white space, and the hashes
-- around titles, are not kept.
pub written-markdown_to_blocks :
    (t : Text) → written (markdown_to_blocks t) ≡ spoken false (splitlines t)
unfolding markdown_to_blocks flush_buffer
written-markdown_to_blocks t =
    let s = scan_lines empty_scan (splitlines t) in
    sym (append-nil _) ∙ held-flush (last_kind s) s ∙ held-scan_lines empty_scan (splitlines t)
