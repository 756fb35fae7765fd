-- ===== src/Llm/Client.antt =====
-- prflagger/llm/client.py: ModelClient.ask and _trip. The redaction of personal data, the key of a request
-- in the cache and the provider are arguments: each is a function, of which nothing is assumed. The
-- cache is what is on disk; an entry without a model or with no counts reads as the
-- defaults. A model's name holds no quotation mark.
pub mod Settled
use pr_review.Prelude.{
  ℕ, ◌+◌, String, Bool, true, false, not, Option, none, some, List, [], ◌∷◌, ◌++◌, ◌==◌, ◌&&◌, ◌||◌,
  eqb, if◌then◌else◌, Dict, get, put, map, text_length, concat,
}
use pr_review.Llm.Ledger.{
  Completion, Request, Settings, Ledger, Reservation, Reserved, unpriced, exceeded, reserved,
  reserve, release, record_call,
}

-- A request as it is sent.
pub record Prompt : Type 0 where
  pub model : String
  pub prompt : String
  pub system : List (String × Bool)
  pub max_tokens : ℕ

pub data Response : Type 0 where
  failed : (status : Option ℕ) (message : String) → Response
  completed : (text : String) (completion : Completion) → Response

pub record Hit : Type 0 where
  pub model : String
  pub text : String
  pub input_tokens : ℕ
  pub output_tokens : ℕ

-- What is fixed when the client is built.
pub record World : Type 0 where
  pub settings : Settings
  pub redact : String → String
  pub key : Prompt → String
  pub respond : Prompt → Response

-- The client, the cache, and what was sent to the provider.
pub record Client : Type 0 where
  pub ledger : Ledger
  pub has_provider : Bool
  pub unavailable_reason : String
  pub credentials : String
  pub cache : Dict Hit
  pub sent : List Prompt

-- Who asks.
pub record Tag : Type 0 where
  pub stage : String
  pub run_id : Option String
  pub repo : Option String

pub record Answer : Type 0 where
  pub text : String
  pub model : String
  pub usd : ℕ
  pub cached : Bool
  pub completion : Completion

pub data Outcome : Type 0 where
  answered : Answer → Outcome
  unavailable : (reason : String) → Outcome
  refused : Reserved → Outcome
  raised : (message : String) → Outcome

unfoldable pub redacted_block : World → String × Bool → String × Bool
redacted_block w (text, cache) = (w.redact text, cache)

unfoldable pub redacted : World → Prompt → Prompt
unfolding redacted_block
redacted w p = record p { prompt = w.redact p.prompt; system = map (redacted_block w) p.system }

block_chars : String × Bool → ℕ
block_chars (text, cache) = text_length text

-- What the ledger reads of a request.
unfoldable pub request_of : Prompt → Request
unfolding block_chars
request_of p = record {
  model = p.model;
  prompt_chars = text_length p.prompt;
  system_chars = map block_chars p.system;
  max_tokens = p.max_tokens;
}

unfoldable pub disabled : String → Client → Client
disabled why c = record c {
  has_provider = false;
  unavailable_reason = concat (why ∷ " — fix it, then run `prflagger llm check`" ∷ []);
}

-- `_trip`
unfoldable pub trip : Option ℕ → String → String → Client → Client
unfolding disabled
trip none message model c = c
trip (some status) message model c =
    if eqb status 401 || eqb status 403
    then disabled
        (concat ("Bedrock refused the credentials (" ∷ c.credentials ∷ "): " ∷ message ∷ [])) c
    else if eqb status 404
    then disabled (concat ("Bedrock does not know the model '" ∷ model ∷ "': " ∷ message ∷ [])) c
    else c

hit_completion : Hit → Completion
hit_completion h = record {
  model = h.model;
  input_tokens = h.input_tokens;
  output_tokens = h.output_tokens;
  cache_read_tokens = 0;
  cache_write_tokens = 0;
}

-- An answer from the cache: recorded at no cost.
unfoldable pub from_cache : World → ℕ → Tag → Prompt → Hit → Client → Outcome × Client
unfolding hit_completion
from_cache w now tag p h c = (
  answered (record {
    text = h.text;
    model = p.model;
    usd = 0;
    cached = true;
    completion = hit_completion h;
  }),
  record c {
    ledger =
        (record_call w.settings now (hit_completion h) p.model tag.stage tag.run_id tag.repo true
          none c.ledger).1;
  },
)

-- The provider has answered the request that was reserved for.
unfoldable pub on_response :
    World → ℕ → Tag → Prompt → Reservation → Response → Client → Outcome × Client
on_response w now tag p r (failed status message) c =
    (raised message, trip status message p.model (record c { ledger = release r c.ledger }))
on_response w now tag p r (completed text completion) c =
    let (usd, ledger) =
      record_call w.settings now completion p.model tag.stage tag.run_id tag.repo false (some r)
        c.ledger in
    (
      answered (record {
        text = text;
        model = p.model;
        usd = usd;
        cached = false;
        completion = completion;
      }),
      record c {
        ledger = ledger;
        cache = put c.cache (w.key p) (record {
          model = p.model;
          text = text;
          input_tokens = completion.input_tokens;
          output_tokens = completion.output_tokens;
        });
      },
    )

unfoldable pub send : World → ℕ → Tag → Prompt → Reserved × Ledger → Client → Outcome × Client
unfolding on_response
send w now tag p (unpriced, ledger) c = (refused unpriced, record c { ledger = ledger })
send w now tag p (exceeded scope, ledger) c =
    (refused (exceeded scope), record c { ledger = ledger })
send w now tag p (reserved r, ledger) c =
    on_response w now tag p r (w.respond p) (record c { ledger = ledger; sent = c.sent ++ p ∷ [] })

unfoldable pub ask_provider : World → ℕ → Tag → Prompt → Client → Outcome × Client
unfolding send
ask_provider w now tag p c =
    if c.has_provider
    then send w now tag p (reserve w.settings now (request_of p) tag.run_id tag.repo c.ledger) c
    else (unavailable (concat ("no model provider: " ∷ c.unavailable_reason ∷ [])), c)

unfoldable pub ask_redacted : World → ℕ → Tag → Prompt → Option Hit → Client → Outcome × Client
ask_redacted w now tag p none c = ask_provider w now tag p c
ask_redacted w now tag p (some h) c = from_cache w now tag p h c

-- `ask`
unfoldable pub ask : World → ℕ → Tag → Bool → Prompt → Client → Outcome × Client
ask w now tag use_cache given c =
    let p = redacted w given in
    ask_redacted w now tag p (if use_cache then get c.cache (w.key p) else none) c
