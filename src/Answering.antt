-- ===== src/Answering.antt =====
-- app/pipeline/answering.py: the sources of a prompt, the citations of an answer, refusals, and the
-- replies to small talk. The LLM and the embedder are parameters: an answer, or an error.
pub mod Citations
use doc_chat_platform.Retrieval.{SearchResult, Score}
use doc_chat_platform.Text.{codes, strip, digit_value, Text, join, decimal, contains, opens_with}
use doc_chat_platform.Base.{
  [], none, some, true, false, suc, ok, err, Bool, List, Option, ℕ, take, Result, ◌++◌, length,
  is_empty, if◌then◌else◌, ◌∷◌, ◌*◌, ◌==◌, get_elem?, leb, ◌||◌, ◌-◌, ◌+◌, ◌&&◌, not, any,
}

pub record Citation : Type 0 where
  pub number : ℕ
  pub document_id : ℕ
  pub chunk_id : ℕ
  pub filename : Text
  pub section_path : List Text
  pub snippet : Text
  pub score : Score

pub record Answer : Type 0 where
  pub text : Text
  pub citations : List Citation
  pub refused : Bool
  pub considered : ℕ

-- An answer with the defaults of the dataclass.
abbrev pub plain : Text → Answer
plain t = record { text = t; citations = []; refused = false; considered = 0 }

abbrev pub source_gap : Text
source_gap = 10 ∷ 10 ∷ []

abbrev pub heading_of : SearchResult → Text
heading_of r =
    if is_empty r.section_path || is_empty (join (codes " > ") r.section_path)
    then r.filename
    else r.filename ++ (codes " > " ++ join (codes " > ") r.section_path)

unfoldable pub source_blocks : ℕ → List SearchResult → List Text
source_blocks index [] = []
source_blocks index (r ∷ rs) =
    (codes "[" ++ (decimal index ++ (codes "] " ++ (heading_of r ++ (10 ∷ r.content)))))
    ∷ source_blocks (suc index) rs

unfoldable pub build_sources : List SearchResult → Text
unfolding source_blocks join
build_sources results = join source_gap (source_blocks 1 results)

-- What the pattern `\[(\d{1,2})\]` reads behind an opening bracket.
unfoldable pub marker_after : Text → Option ℕ
unfolding digit_value
marker_after [] = none
marker_after (a ∷ []) = none
marker_after (a ∷ b ∷ cs) = number (digit_value a) (digit_value b) (b == b']') (opens_with b']' cs)
  where
    number : Option ℕ → Option ℕ → Bool → Bool → Option ℕ
    number (some d) (some e) closed closed_behind =
        if closed_behind then some (d * 10 + e) else none
    number (some d) none closed closed_behind = if closed then some d else none
    number none e closed closed_behind = none

abbrev pub push_marker : Option ℕ → List ℕ → List ℕ
push_marker none ns = ns
push_marker (some n) ns = n ∷ ns

-- The numbers of `_CITATION.finditer(text)`.
unfoldable pub markers : Text → List ℕ
unfolding marker_after
markers [] = []
markers (c ∷ cs) =
    let rest = markers cs in if c == b'[' then push_marker (marker_after cs) rest else rest

-- The loop that fills `used`: numbers of a source, each once, in the order of their first use.
unfoldable pub collect_used : ℕ → List ℕ → List ℕ → List ℕ
collect_used n used [] = used
collect_used n used (m ∷ ms) =
    collect_used n
      (if leb 1 m && (leb m n && not (any (λ k. k == m) used)) then used ++ (m ∷ []) else used) ms

abbrev pub cite : ℕ → SearchResult → Citation
cite number r = record {
  number = number;
  document_id = r.document_id;
  chunk_id = r.chunk_id;
  filename = r.filename;
  section_path = r.section_path;
  snippet = take 400 r.content;
  score = r.score;
}

-- `results[number - 1]`, for numbers that are in range
abbrev pub push_citation : ℕ → Option SearchResult → List Citation → List Citation
push_citation number none cs = cs
push_citation number (some r) cs = cite number r ∷ cs

unfoldable pub cite_all : List SearchResult → List ℕ → List Citation
cite_all results [] = []
cite_all results (m ∷ ms) = push_citation m (get_elem? results (m - 1)) (cite_all results ms)

unfoldable pub collect_citations : Text → List SearchResult → List Citation
unfolding markers collect_used cite_all
collect_citations t results = cite_all results (collect_used (length results) [] (markers t))

-- `str.upper` of the letters of ASCII, and of the characters whose upper case has one in it.
abbrev special_upper : List (ℕ × Text)
special_upper =
    (0xdf, codes "SS")
    ∷ (0x131, codes "I")
    ∷ (0x149, 0x2bc ∷ codes "N")
    ∷ (0x17f, codes "S")
    ∷ (0x1f0, b'J' ∷ 0x30c ∷ [])
    ∷ (0x1e96, b'H' ∷ 0x331 ∷ [])
    ∷ (0x1e97, b'T' ∷ 0x308 ∷ [])
    ∷ (0x1e98, b'W' ∷ 0x30a ∷ [])
    ∷ (0x1e99, b'Y' ∷ 0x30a ∷ [])
    ∷ (0x1e9a, b'A' ∷ 0x2be ∷ [])
    ∷ (0xfb00, codes "FF")
    ∷ (0xfb01, codes "FI")
    ∷ (0xfb02, codes "FL")
    ∷ (0xfb03, codes "FFI")
    ∷ (0xfb04, codes "FFL")
    ∷ (0xfb05, codes "ST")
    ∷ (0xfb06, codes "ST")
    ∷ []

unfoldable pub look_up_upper : List (ℕ × Text) → ℕ → Text
look_up_upper [] c = c ∷ []
look_up_upper ((d, t) ∷ table) c = let rest = look_up_upper table c in if c == d then t else rest

unfoldable pub upper : Text → Text
unfolding look_up_upper
upper [] = []
upper (c ∷ cs) =
    let rest = upper cs in
    if leb b'a' c && leb c b'z' then (c - 32) ∷ rest else look_up_upper special_upper c ++ rest

abbrev pub no_answer : Text
no_answer = codes "NO_ANSWER"

unfoldable pub prompt_for : Text → List SearchResult → Text
unfolding build_sources strip
prompt_for question results = join [] (
    codes "Sources:"
    ∷ source_gap
    ∷ build_sources results
    ∷ source_gap
    ∷ codes "Question: "
    ∷ strip question
    ∷ source_gap
    ∷ codes "Answer using only the sources above, citing each claim like [1]. "
    ∷ codes "If they do not answer the question, reply with exactly "
    ∷ no_answer
    ∷ codes "."
    ∷ [])

abbrev pub nothing_found : Answer
nothing_found = record {
  text = codes "I could not find anything about that in this workspace's documents.";
  citations = [];
  refused = true;
  considered = 0;
}

abbrev pub not_covered : ℕ → Answer
not_covered n = record {
  text =
      codes "The documents in this workspace do not cover that. Try "
      ++ codes "rephrasing, or upload a document that answers it.";
  citations = [];
  refused = true;
  considered = n;
}

-- `not raw or NO_ANSWER in raw.upper()`
unfoldable pub declines : Text → Bool
unfolding upper
declines raw = is_empty raw || contains no_answer (upper raw)

unfoldable pub answer_from : Text → List SearchResult → Answer
unfolding declines collect_citations
answer_from raw results = if declines raw then not_covered (length results) else record {
  text = raw;
  citations = collect_citations raw results;
  refused = false;
  considered = length results;
}

module _ {E : Type 0} where
  abbrev pub answer_with : List SearchResult → Result E Text → Result E Answer
  answer_with results (err e) = err e
  answer_with results (ok raw) = ok (answer_from (strip raw) results)

  -- `complete` is the LLM with the system prompt of the module, at temperature 0.
  unfoldable pub answer_question :
      (Text → Result E Text) → Text → List SearchResult → Result E Answer
  unfolding prompt_for answer_from
  answer_question complete question [] = ok nothing_found
  answer_question complete question (r ∷ rs) =
      answer_with (r ∷ rs) (complete (prompt_for question (r ∷ rs)))
