-- ===== src/Parsing/Collecting.antt =====
-- The blocks that the collector of lite_html.py makes of any sequence of events.
use doc_chat_platform.Models.{BlockKind}
use doc_chat_platform.Text.{Text, text_eq, codes, strip, join}
use doc_chat_platform.Parsing.Sections.{
  Tracked, Placed, nothing_written, Tracked-plain, Tracked-heading,
}
use doc_chat_platform.Mime.{one_of}
use doc_chat_platform.Parsing.Tags.{
  handle, open_tag, end_heading, feed, close_tag, parse_html, handle_starttag, Event, handle_endtag,
  handle_data, end_heading_at,
}
use doc_chat_platform.Parsing.Html.{
  Collector, finish_table, flush_text, push_heading, emit, skip_tags, new_collector, level_in,
  heading_tags, cell_tags, list_tags, list_kind, block_tags, push_table, emit_text, clean,
  rows_to_markdown,
}
use doc_chat_platform.Base.{
  ◌∷◌, [], ◌&&◌, ◌||◌, none, some, true, inl, inr, refl, List, Option, ℕ, if_ind, if◌then◌else◌,
  ◌≡◌, ◌∙◌, ap, ◌+◌, ◌≤◌, is_some, Bool-cases, ltb, ◌-◌, is_empty, lt→ltb, get_or_else,
}

abbrev Kept : Collector → Type 0
Kept s = Tracked s.blocks s.levels s.section_path

flush_text-Kept : (kind : BlockKind) (s : Collector) → Kept s → Kept (flush_text kind s)
unfolding flush_text emit
flush_text-Kept kind s h = emitted (strip (clean (join (codes " ") s.buffer)))
  where
    emitted : (t : Text) → Kept (emit_text kind t (record s { buffer = [] }))
    emitted [] = h
    emitted (c ∷ cs) = Tracked-plain _ s.blocks s.levels s.section_path refl refl h

end_heading-Kept : (s : Collector) → Kept s → Kept (end_heading s)
unfolding end_heading push_heading end_heading_at
end_heading-Kept s h = ended (clean (join (codes " ") s.buffer)) s.heading_level
  where
    ended : (t : Text) (l : Option ℕ) → Kept (end_heading_at t l (record s { buffer = [] }))
    ended [] l = h
    ended (c ∷ cs) none = h
    ended (c ∷ cs) (some l) = Tracked-heading _ l s.blocks s.levels s.section_path refl refl h

finish_table-Kept : (rows : List (List Text)) (s : Collector) → Kept s → Kept (finish_table rows s)
unfolding finish_table
finish_table-Kept rows s h = pushed (rows_to_markdown rows)
  where
    pushed : (t : Text × Option Text) → Kept (push_table t (record s { table_rows = none }))
    pushed ([], header) = h
    pushed (c ∷ cs, header) = Tracked-plain _ s.blocks s.levels s.section_path refl refl h

open_tag-Kept : (tag : Text) (s : Collector) → Kept s → Kept (open_tag tag s)
unfolding open_tag
open_tag-Kept tag s h =
    let flushed : Kept (flush_text BlockKind.text s) = flush_text-Kept BlockKind.text s h in
    if_ind Kept (text_eq tag (codes "br")) (λ _. h)
      (λ _.
        if_ind Kept (is_some (level_in heading_tags tag)) (λ _. flushed)
          (λ _.
            if_ind Kept (text_eq tag (codes "table")) (λ _. flushed)
              (λ _.
                if_ind Kept (text_eq tag (codes "tr") && is_some s.table_rows) (λ _. h)
                  (λ _.
                    if_ind Kept (one_of cell_tags tag && is_some s.row) (λ _. h)
                      (λ _.
                        if_ind Kept (one_of list_tags tag) (λ _. flushed)
                          (λ _.
                            if_ind Kept (text_eq tag (codes "li"))
                              (λ _. flush_text-Kept (list_kind s) s h)
                              (λ _.
                                if_ind Kept (one_of block_tags tag) (λ _. flushed) (λ _. h))))))))

close_tag-Kept : (tag : Text) (s : Collector) → Kept s → Kept (close_tag tag s)
unfolding close_tag
close_tag-Kept tag s h =
    if_ind Kept (is_some (level_in heading_tags tag)) (λ _. end_heading-Kept s h)
      (λ _.
        if_ind Kept (one_of cell_tags tag && (is_some s.cell && is_some s.row)) (λ _. h)
          (λ _.
            if_ind Kept (text_eq tag (codes "tr") && is_some s.row) (λ _. h)
              (λ _.
                if_ind Kept (text_eq tag (codes "table") && is_some s.table_rows)
                  (λ _. finish_table-Kept (get_or_else s.table_rows []) s h)
                  (λ _.
                    if_ind Kept (one_of list_tags tag) (λ _. flush_text-Kept (list_kind s) s h)
                      (λ _.
                        if_ind Kept (text_eq tag (codes "li"))
                          (λ _. flush_text-Kept BlockKind.list s h)
                          (λ _.
                            if_ind Kept (one_of block_tags tag)
                              (λ _. flush_text-Kept BlockKind.text s h) (λ _. h)))))))

handle-Kept : (e : Event) (s : Collector) → Kept s → Kept (handle e s)
unfolding handle handle_starttag handle_endtag handle_data
handle-Kept (Event.start_tag tag) s h =
    if_ind Kept (one_of skip_tags tag) (λ _. h)
      (λ _. if_ind Kept (ltb 0 s.skip_depth) (λ _. h) (λ _. open_tag-Kept tag s h))
handle-Kept (Event.end_tag tag) s h =
    if_ind Kept (one_of skip_tags tag) (λ _. h)
      (λ _. if_ind Kept (ltb 0 s.skip_depth) (λ _. h) (λ _. close_tag-Kept tag s h))
handle-Kept (Event.data_text text) s h =
    if_ind Kept (ltb 0 s.skip_depth || is_empty (strip text)) (λ _. h)
      (λ _.
        if_ind Kept (is_some s.cell) (λ _. h)
          (λ _. if_ind Kept (is_some s.row || is_some s.table_rows) (λ _. h) (λ _. h)))

feed-Kept : (events : List Event) (s : Collector) → Kept s → Kept (feed events s)
unfolding feed
feed-Kept [] s h = h
feed-Kept (e ∷ events) s h = feed-Kept events (handle e s) (handle-Kept e s h)

-- However the tags of a page are nested or left open, the path of each block holds the titles of the
-- headings up to it that are still open there, those with no later heading of the same or a higher
-- level, from the outermost to the innermost.
pub parse_html-Placed : (events : List Event) → Placed [] (parse_html events).0
unfolding parse_html
parse_html-Placed events =
    (flush_text-Kept BlockKind.text (feed events new_collector)
      (feed-Kept events new_collector nothing_written)).2

-- The events up to the end tag that closes so many skipped elements.
abbrev pub deeper : Event → ℕ → ℕ
unfolding one_of
deeper (Event.start_tag tag) n = if one_of skip_tags tag then n + 1 else n
deeper (Event.end_tag tag) n = if one_of skip_tags tag then n - 1 else n
deeper (Event.data_text text) n = n

abbrev pub Closes : ℕ → List Event → Type 0
unfolding deeper
Closes n [] = n ≡ 0
Closes n (e ∷ events) = (1 ≤ n) × Closes (deeper e n) events

at_depth : ℕ → Collector → Collector
at_depth n s = record s { skip_depth = n }

handle-skipped :
    (e : Event) (n : ℕ) (s : Collector) → 1 ≤ n → handle e (at_depth n s) ≡ at_depth (deeper e n) s
unfolding handle handle_starttag handle_endtag handle_data at_depth deeper
handle-skipped (Event.start_tag tag) n s h = elim (Bool-cases (one_of skip_tags tag)) [
  | inl e ↦ rw e refl
  | inr e ↦ rw (e, lt→ltb 0 n h) refl
]
handle-skipped (Event.end_tag tag) n s h = elim (Bool-cases (one_of skip_tags tag)) [
  | inl e ↦ rw e refl
  | inr e ↦ rw (e, lt→ltb 0 n h) refl
]
handle-skipped (Event.data_text text) n s h = rw (lt→ltb 0 n h) refl

feed-skipped :
    (n : ℕ) (events : List Event) (s : Collector)
    → Closes n events
    → feed events (at_depth n s) ≡ at_depth 0 s
unfolding feed Closes
feed-skipped n [] s h = ap (λ m. at_depth m s) h
feed-skipped n (e ∷ events) s h =
    ap (feed events) (handle-skipped e n s h.0) ∙ feed-skipped (deeper e n) events s h.1

-- A script, a style or another skipped element leaves the collector as it was, whatever is in it up to
-- its end tag, skipped elements included.
pub feed-skipped_element :
    (tag : Text) (events : List Event) (s : Collector)
    → one_of skip_tags tag ≡ true
    → s.skip_depth ≡ 0
    → Closes 1 events
    → feed (Event.start_tag tag ∷ events) s ≡ s
unfolding feed handle handle_starttag at_depth
feed-skipped_element tag events s k z h = rw (k, z) (feed-skipped 1 events s h)
