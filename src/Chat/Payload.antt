-- ===== src/Chat/Payload.antt =====
-- The requests of the chat scripts as a server of the OpenAI chat API reads them.
use mathlib.Core.Option
use ai_infra_demo.Base.{
  ℕ, ◌≡◌, refl, ap, Bool, true, Option, none, some, List, [], ◌∷◌, ◌++◌, map, All,
}
use ai_infra_demo.Base.Int.{ℤ, pos}
use ai_infra_demo.Py.Text.{Text, codes, text_eq}
use ai_infra_demo.Py.Json.{Json, Items, Fields, null, str, arr, obj, bool, int, nil, cons, field_or}
use ai_infra_demo.Py.Argparse.{and_then}
use ai_infra_demo.Effects.{Request, Env, World}
use ai_infra_demo.Chat.{Message, system_message, user, assistant, messages_json, chat_request}
use ai_infra_demo.Chat.Prompts.{prompts}
use ai_infra_demo.Chat.Session.{SessionArgs}
use ai_infra_demo.MultiSession.{run_chat_session}
use ai_infra_demo.MultiSession.Session.{run_chat_session-IsGrowing}

-- The fields that a request must have, with their types.
pub record ChatPayload : Type 0 where
  pub model : Text
  pub messages : List Message
  pub stream : Bool
  pub max_tokens : ℤ

abbrev text_of : Json → Option Text
text_of (str t) = some t
text_of _ = none

abbrev flag_of : Json → Option Bool
flag_of (bool b) = some b
flag_of _ = none

abbrev number_of : Json → Option ℤ
number_of (int n) = some n
number_of _ = none

abbrev fields_of : Json → Option Fields
fields_of (obj fs) = some fs
fields_of _ = none

abbrev items_of : Json → Option Items
items_of (arr xs) = some xs
items_of _ = none

message_of : Json → Option Message
message_of j = and_then (fields_of j) λ fs.
    and_then (text_of (field_or (codes "role") null fs)) λ role.
      Option.map (λ content. record { role = role; content = content })
        (text_of (field_or (codes "content") null fs))

messages_of : Items → Option (List Message)
unfolding message_of
messages_of nil = some []
messages_of (cons j js) = and_then (message_of j) λ m. Option.map (λ ms. m ∷ ms) (messages_of js)

pub read_chat : Json → Option ChatPayload
unfolding messages_of
read_chat j = and_then (fields_of j) λ fs.
    and_then (text_of (field_or (codes "model") null fs)) λ model.
      and_then (items_of (field_or (codes "messages") null fs)) λ items.
        and_then (messages_of items) λ messages.
          and_then (flag_of (field_or (codes "stream") null fs)) λ stream.
            Option.map
              (λ n. record { model = model; messages = messages; stream = stream; max_tokens = n })
              (number_of (field_or (codes "max_tokens") null fs))

messages_of-messages_json : (ms : List Message) → messages_of (messages_json ms) ≡ some ms
unfolding messages_of message_of messages_json field_or text_eq
messages_of-messages_json [] = refl
messages_of-messages_json (m ∷ ms) = ap (Option.map _) (messages_of-messages_json ms)

read_chat-chat_request :
    (max_tokens : ℕ) (url model : Text) (ms : List Message)
    → read_chat (chat_request max_tokens url model ms).payload
      ≡ some (record { model = model; messages = ms; stream = true; max_tokens = pos max_tokens })
unfolding read_chat chat_request field_or text_eq
read_chat-chat_request max_tokens url model ms = rw (messages_of-messages_json ms) refl

-- Questions and answers in turn, from a question to a question.
pub data IsTalk : List Message → Type 0 where
  question : (q : Text) → IsTalk (user q ∷ [])
  answered : (q a : Text) {ms : List Message} → IsTalk ms → IsTalk (user q ∷ assistant a ∷ ms)

-- Questions, each with its answer.
data IsAnswered : List Message → Type 0 where
  no_question : IsAnswered []
  one_answered :
      (q a : Text) {ms : List Message} → IsAnswered ms → IsAnswered (user q ∷ assistant a ∷ ms)

IsAnswered-IsTalk : {ms : List Message} (q : Text) → IsAnswered ms → IsTalk (ms ++ user q ∷ [])
IsAnswered-IsTalk q no_question = question q
IsAnswered-IsTalk q (one_answered p a h) = answered p a (IsAnswered-IsTalk q h)

IsAnswered-append :
    {ms : List Message} (q a : Text)
    → IsAnswered ms
    → IsAnswered ((ms ++ user q ∷ []) ++ assistant a ∷ [])
IsAnswered-append q a no_question = one_answered q a no_question
IsAnswered-append q a (one_answered p b h) = one_answered p b (IsAnswered-append q a h)

-- The messages of a request: the system's, then questions and answers in turn, the last a question.
abbrev pub IsConversation : List Message → Type 0
IsConversation ms = (talk : List Message) × (ms ≡ system_message ∷ talk) × IsTalk talk

-- A request to the URL whose payload is read with the model, a conversation, streaming and the limit.
abbrev pub IsChatRequest : ℕ → Text → Text → Request → Type 0
IsChatRequest max_tokens url model req =
    (ms : List Message) × (req.url ≡ url)
    × (read_chat req.payload
        ≡ some
            (record { model = model; messages = ms; stream = true; max_tokens = pos max_tokens }))
    × IsConversation ms

request_url :
    (max_tokens : ℕ) (url model : Text) (ms : List Message)
    → (chat_request max_tokens url model ms).url ≡ url
unfolding chat_request
request_url max_tokens url model ms = refl

prompts-IsChatRequest :
    (max_tokens : ℕ) (url model : Text) (history : List Message) (done : List (Text × Text))
    → IsAnswered history
    → All
        (IsChatRequest max_tokens url model)
        (map (chat_request max_tokens url model) (prompts (system_message ∷ history) done))
unfolding prompts
prompts-IsChatRequest max_tokens url model history [] h = tt
prompts-IsChatRequest max_tokens url model history ((q, a) ∷ done) h = (
  (
    system_message ∷ (history ++ user q ∷ []),
    request_url max_tokens url model (system_message ∷ (history ++ user q ∷ [])),
    read_chat-chat_request max_tokens url model (system_message ∷ (history ++ user q ∷ [])),
    (history ++ user q ∷ [], refl, IsAnswered-IsTalk q h),
  ),
  prompts-IsChatRequest max_tokens url model ((history ++ user q ∷ []) ++ assistant a ∷ []) done
      (IsAnswered-append q a h),
)

-- Whatever the server answers and however the session ends, each request of a session of
-- load_test_multi_session.py goes to the session's URL and has the types of the API: a model, which is the
-- session's, messages with a role and a content, a flag for streaming, which is set, and a limit of 600
-- tokens; its messages are the system's and then questions and answers in turn, the last a question.
pub run_chat_session-IsChatRequest :
    (env : Env) (is_set : ℕ → Bool) (args : SessionArgs) (w : World)
    → (new : List Request) × ((run_chat_session env is_set args w).1.sent ≡ w.sent ++ new)
      × All (IsChatRequest 600 args.url args.model) new
run_chat_session-IsChatRequest env is_set args w =
    let (_, _, (done, rest, _, sent)) = run_chat_session-IsGrowing env is_set args w in
    (
      map (chat_request 600 args.url args.model) (prompts (system_message ∷ []) done),
      sent,
      prompts-IsChatRequest 600 args.url args.model [] done no_question,
    )
