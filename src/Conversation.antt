-- ===== src/Conversation.antt =====
-- app/pipeline/conversation.py: messages that are not questions, and the replies to them; with
-- is_conversational and orientation of app/pipeline/answering.py, which do the same.
use doc_chat_platform.Sql.{select_where}
use doc_chat_platform.Answering.{Answer, plain}
use doc_chat_platform.Profiling.{is_member}
use doc_chat_platform.Text.{join, strip, Text, codes, lower, decimal, is_space}
use doc_chat_platform.Base.{
  [], none, some, false, zero, suc, Bool, List, Option, ℕ, ◌∷◌, not, ◌||◌, if◌then◌else◌, ltb, ◌++◌,
  map, ◌==◌, take, length, ◌-◌,
}
use doc_chat_platform.Tokens.{Tools}

-- `[^\w\s]`
abbrev pub is_punctuation : Tools → ℕ → Bool
is_punctuation tools c = not (tools.is_word c || is_space c)

abbrev pub blank_punctuation : Tools → ℕ → ℕ
blank_punctuation tools c = if is_punctuation tools c then 32 else c

-- `_SPACES.sub(" ", text)`; `after` tells that a space was just put.
unfoldable pub collapse_spaces : Bool → Text → Text
collapse_spaces after [] = []
collapse_spaces after (c ∷ cs) =
    let rest = collapse_spaces (is_space c) cs in
    if is_space c then (if after then rest else 32 ∷ rest) else c ∷ rest

unfoldable pub normalise_message : Tools → Text → Text
unfolding collapse_spaces strip lower
normalise_message tools t = strip (collapse_spaces false (map (blank_punctuation tools) (lower t)))

abbrev greetings : List Text
greetings =
    codes "hi"
    ∷ codes "hii"
    ∷ codes "hiii"
    ∷ codes "hey"
    ∷ codes "heya"
    ∷ codes "hello"
    ∷ codes "helo"
    ∷ codes "hiya"
    ∷ codes "howdy"
    ∷ codes "yo"
    ∷ codes "good morning"
    ∷ codes "good afternoon"
    ∷ codes "good evening"
    ∷ codes "morning"
    ∷ codes "gm"
    ∷ codes "hi there"
    ∷ codes "hello there"
    ∷ codes "hey there"
    ∷ []

abbrev thanks_words : List Text
thanks_words =
    codes "thanks"
    ∷ codes "thank you"
    ∷ codes "thankyou"
    ∷ codes "thx"
    ∷ codes "ty"
    ∷ codes "tysm"
    ∷ codes "cheers"
    ∷ codes "ta"
    ∷ codes "thanks a lot"
    ∷ codes "thank you so much"
    ∷ codes "much appreciated"
    ∷ codes "appreciate it"
    ∷ []

abbrev acknowledgements : List Text
acknowledgements =
    codes "ok"
    ∷ codes "okay"
    ∷ codes "k"
    ∷ codes "kk"
    ∷ codes "cool"
    ∷ codes "nice"
    ∷ codes "great"
    ∷ codes "got it"
    ∷ codes "alright"
    ∷ codes "sure"
    ∷ codes "fine"
    ∷ codes "perfect"
    ∷ codes "awesome"
    ∷ codes "understood"
    ∷ []

abbrev farewells : List Text
farewells =
    codes "bye"
    ∷ codes "goodbye"
    ∷ codes "good bye"
    ∷ codes "see you"
    ∷ codes "see ya"
    ∷ codes "cya"
    ∷ codes "later"
    ∷ []

abbrev meta_questions : List Text
meta_questions =
    codes "help"
    ∷ codes "what can i ask"
    ∷ codes "what can i ask you"
    ∷ codes "what should i ask"
    ∷ codes "how do i use this"
    ∷ codes "how does this work"
    ∷ codes "what is this"
    ∷ codes "what documents do you have"
    ∷ codes "which documents do you have"
    ∷ codes "what files do you have"
    ∷ codes "what do you know"
    ∷ []

pub data Kind : Type 0 where
  greeting thanks ack farewell meta : Kind

unfoldable pub kind_of : Text → Option Kind
unfolding is_member
kind_of key =
    if is_member key greetings
    then some greeting
    else if is_member key thanks_words
    then some thanks
    else if is_member key acknowledgements
    then some ack
    else if is_member key farewells
    then some farewell
    else if is_member key meta_questions
    then some meta
    else none

unfoldable pub classify : Tools → Text → Option Kind
unfolding normalise_message kind_of
classify tools t = kind_of (normalise_message tools t)

abbrev comma : Text
comma = codes ", "

-- `", ".join(shown[:-1]) + f" and {shown[-1]}"` for two items or more
unfoldable pub and_last : List Text → Text
and_last [] = []
and_last (x ∷ []) = x
and_last (x ∷ y ∷ []) = x ++ (codes " and " ++ y)
and_last (x ∷ y ∷ z ∷ r) = x ++ (comma ++ and_last (y ∷ z ∷ r))

-- `_join`
unfoldable pub join_items : List Text → ℕ → Text
unfolding and_last join
join_items items limit =
    if ltb limit (length items)
    then join comma (take limit items)
      ++ (codes ", and " ++ (decimal (length items - limit) ++ codes " more"))
    else and_last (take limit items)

abbrev pub hello_of : Option Kind → Text
hello_of (some greeting) = codes "Hi. "
hello_of _ = []

abbrev pub noun_of : ℕ → Text
noun_of n = if n == 1 then codes "document" else codes "documents"

abbrev pub topic_line : List Text → List Text
topic_line [] = []
topic_line (t ∷ ts) = (codes "They cover topics like " ++ (join_items (t ∷ ts) 6 ++ codes ".")) ∷ []

abbrev pub processing_line : ℕ → List Text
processing_line n =
    if n == 0 then [] else (decimal n ++ codes " more are still being processed.") ∷ []

-- With documents that are ready.
unfoldable pub contents_reply : Option Kind → List Text → List Text → ℕ → Text
unfolding join_items join
contents_reply kind filenames topics processing = join (codes " ") (
    join [] (
      hello_of kind
      ∷ codes "I answer questions using only the "
      ∷ decimal (length filenames)
      ∷ codes " "
      ∷ noun_of (length filenames)
      ∷ codes " in this workspace: "
      ∷ join_items filenames 5
      ∷ codes "."
      ∷ [])
    ∷ (topic_line topics
        ++ (processing_line processing
            ++ (codes
                  "Every answer cites its source, and if the documents don't cover something I'll say so rather than guess."
                ∷ []))))

-- With none.
unfoldable pub empty_reply : Option Kind → ℕ → Text
empty_reply kind processing =
    if processing == 0
    then hello_of kind
      ++ codes
          "This workspace has no documents yet. Upload one on the left, wait for it to show ready, then ask me about it."
    else hello_of kind
      ++ (decimal processing
          ++ codes
              " document(s) are still being processed. Once they show ready on the left, ask me about them.")

unfoldable pub contents_or_empty : Option Kind → List Text → List Text → ℕ → Text
unfolding contents_reply empty_reply
contents_or_empty kind [] topics processing = empty_reply kind processing
contents_or_empty kind (f ∷ fs) topics processing = contents_reply kind (f ∷ fs) topics processing

unfoldable pub reply : Option Kind → List Text → List Text → ℕ → Answer
unfolding contents_or_empty
reply (some thanks) filenames topics processing =
    plain (codes "You're welcome. Ask me anything else about these documents.")
reply (some farewell) filenames topics processing =
    plain (codes "Bye. Your conversation is saved until you clear it.")
reply (some ack) filenames topics processing =
    plain (codes "Ask me a question about the documents whenever you're ready.")
reply (some greeting) filenames topics processing =
    plain (contents_or_empty (some greeting) filenames topics processing)
reply (some meta) filenames topics processing =
    plain (contents_or_empty (some meta) filenames topics processing)
reply none filenames topics processing = plain (contents_or_empty none filenames topics processing)

-- `_CONVERSATIONAL` of answering.py
abbrev conversational : List Text
conversational =
    codes "hi"
    ∷ codes "hii"
    ∷ codes "hiii"
    ∷ codes "hey"
    ∷ codes "heyy"
    ∷ codes "hello"
    ∷ codes "helo"
    ∷ codes "hiya"
    ∷ codes "howdy"
    ∷ codes "yo"
    ∷ codes "sup"
    ∷ codes "good morning"
    ∷ codes "good afternoon"
    ∷ codes "good evening"
    ∷ codes "thanks"
    ∷ codes "thank you"
    ∷ codes "thanks a lot"
    ∷ codes "thankyou"
    ∷ codes "thx"
    ∷ codes "ty"
    ∷ codes "cheers"
    ∷ codes "ta"
    ∷ codes "nice"
    ∷ codes "cool"
    ∷ codes "great"
    ∷ codes "ok"
    ∷ codes "okay"
    ∷ codes "k"
    ∷ codes "got it"
    ∷ codes "bye"
    ∷ codes "goodbye"
    ∷ codes "see you"
    ∷ codes "see ya"
    ∷ codes "later"
    ∷ codes "help"
    ∷ codes "what is this"
    ∷ codes "what can i ask"
    ∷ codes "what can i ask you"
    ∷ codes "how do i use this"
    ∷ codes "how does this work"
    ∷ []

abbrev pub is_not_punctuation : Tools → ℕ → Bool
is_not_punctuation tools c = tools.is_word c || is_space c

unfoldable pub is_conversational : Tools → Text → Bool
unfolding collapse_spaces strip lower is_member
is_conversational tools t =
    is_member (strip (collapse_spaces false (lower (select_where (is_not_punctuation tools) t))))
      conversational

abbrev pub and_more : List Text → Text
and_more filenames =
    if ltb 5 (length filenames)
    then codes ", and " ++ (decimal (length filenames - 5) ++ codes " more")
    else []

abbrev pub cover_line : List Text → List Text
cover_line [] = []
cover_line (t ∷ ts) = (codes "They cover " ++ (join comma (take 8 (t ∷ ts)) ++ codes ".")) ∷ []

unfoldable pub orientation : ℕ → List Text → List Text → Answer
unfolding join
orientation zero filenames topics = plain (
    codes
      "This workspace has no documents yet. Upload one on the left, wait for it to say ready, then ask me about it — I answer only from what you upload, and cite where each answer came from.")
orientation (suc n) filenames topics = plain (
    join (codes " ") (
      join [] (
        codes "I answer questions from the "
        ∷ decimal (suc n)
        ∷ codes " document(s) in this workspace: "
        ∷ join comma (take 5 filenames)
        ∷ and_more filenames
        ∷ codes "."
        ∷ [])
      ∷ (cover_line topics
          ++ (codes
                "Ask me something about them and I'll answer with citations, or tell you plainly if they don't cover it."
              ∷ []))))
