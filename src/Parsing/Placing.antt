-- ===== src/Parsing/Placing.antt =====
-- The paths of the blocks that the items of Docling and the children of a Word document become.
use doc_chat_platform.Parsing.Docx.{
  add_children, add_leveled, Body, parse_docx, add_child, add_table, add_heading, Child, level_of,
  table_of,
}
use doc_chat_platform.Mime.{one_of}
use doc_chat_platform.Text.{strip, Text}
use doc_chat_platform.Models.{Block}
use doc_chat_platform.Parsing.Sections.{
  Tracked, Placed, nothing_written, Tracked-plain, Tracked-heading,
}
use doc_chat_platform.Base.{◌∷◌, [], none, refl, Bool, List, ℕ, ◌≡◌, if_ind, is_empty, some, Option}
use doc_chat_platform.Parsing.Docling.{
  Walk, walk_item, walk_items, blocks_from_items, enter_section, Item, path_now, push, label_of,
  heading_labels, table_labels, table_markdown, image_labels,
}

abbrev Followed : Walk → Type 0
Followed w = Tracked w.blocks w.heading_levels w.section_path

walk_item-Followed :
    (is_slides : Bool) (w : Walk) (item : Item) (level : ℕ)
    → Followed w
    → Followed (walk_item is_slides w (item, level))
unfolding walk_item enter_section
walk_item-Followed is_slides w item level h =
    let push_Followed : (b : Block)
        → b.level ≡ none
        → b.section_path ≡ path_now w
        → Followed (push b w) =
      λ b e p. Tracked-plain b w.blocks w.heading_levels w.section_path e p h in
    let label = label_of item in
    let text = strip item.text in
    if_ind Followed (one_of heading_labels label)
      (λ _.
        if_ind Followed (is_empty text) (λ _. h)
          (λ _. Tracked-heading _ level w.blocks w.heading_levels w.section_path refl refl h))
      (λ _.
        if_ind Followed (one_of table_labels label)
          (λ _.
            if_ind Followed (is_empty (strip (table_markdown item))) (λ _. h)
              (λ _. push_Followed _ refl refl))
          (λ _.
            if_ind Followed (one_of image_labels label) (λ _. push_Followed _ refl refl)
              (λ _. if_ind Followed (is_empty text) (λ _. h) (λ _. push_Followed _ refl refl))))

walk_items-Followed :
    (is_slides : Bool) (w : Walk) (items : List (Item × ℕ))
    → Followed w
    → Followed (walk_items is_slides w items)
unfolding walk_items
walk_items-Followed is_slides w [] h = h
walk_items-Followed is_slides w ((item, level) ∷ items) h =
    walk_items-Followed is_slides (walk_item is_slides w (item, level)) items
      (walk_item-Followed is_slides w item level h)

-- The path of each block of an element walk holds the titles of the headings up to it that are still
-- open there, from the outermost to the innermost; only headings have a level.
pub blocks_from_items-Placed :
    (is_slides : Bool) (items : List (Item × ℕ)) → Placed [] (blocks_from_items is_slides items)
unfolding blocks_from_items
blocks_from_items-Placed is_slides items =
    (walk_items-Followed is_slides (record { blocks = []; section_path = []; heading_levels = [] })
      items nothing_written).2

abbrev Headed : Body → Type 0
Headed s = Tracked s.blocks s.levels s.section_path

add_table-Headed : (t : Text × Option Text) (s : Body) → Headed s → Headed (add_table t s)
add_table-Headed ([], header) s h = h
add_table-Headed (c ∷ cs, header) s h = Tracked-plain _ s.blocks s.levels s.section_path refl refl h

add_leveled-Headed :
    (level : Option ℕ) (text style : Text) (s : Body)
    → Headed s
    → Headed (add_leveled level text style s)
unfolding add_leveled add_heading
add_leveled-Headed none text style s h =
    Tracked-plain _ s.blocks s.levels s.section_path refl refl h
add_leveled-Headed (some level) text style s h =
    Tracked-heading _ level s.blocks s.levels s.section_path refl refl h

add_child-Headed : (child : Child) (s : Body) → Headed s → Headed (add_child child s)
unfolding add_child
add_child-Headed (Child.p none) s h = h
add_child-Headed (Child.p (some paragraph)) s h =
    if_ind Headed (is_empty (strip paragraph.text)) (λ _. h)
      (λ _.
        add_leveled-Headed (level_of paragraph.style) (strip paragraph.text) paragraph.style s h)
add_child-Headed (Child.tbl none) s h = h
add_child-Headed (Child.tbl (some rows)) s h = add_table-Headed (table_of rows) s h
add_child-Headed Child.other s h = h

add_children-Headed :
    (children : List Child) (s : Body) → Headed s → Headed (add_children children s)
unfolding add_children
add_children-Headed [] s h = h
add_children-Headed (child ∷ children) s h =
    add_children-Headed children (add_child child s) (add_child-Headed child s h)

-- The path of each block of a Word document holds the titles of the headings up to it that are still
-- open there, from the outermost to the innermost.
pub parse_docx-Placed : (children : List Child) → Placed [] (parse_docx children).0
unfolding parse_docx
parse_docx-Placed children =
    (add_children-Headed children
      (record { blocks = []; markdown = []; section_path = []; levels = [] }) nothing_written).2
