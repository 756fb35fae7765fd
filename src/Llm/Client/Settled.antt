-- ===== src/Llm/Client/Settled.antt =====
-- However a call ends, nothing of it stays in flight.
use pr_review.Prelude.{
  ℕ, ◌+◌, String, ◌≡◌, refl, ap, ◌∙◌, Bool, true, false, Option, none, some, List, [], ◌∷◌, ◌++◌,
  ◌⊎◌, inl, inr, get, if◌then◌else◌, eqb, ◌||◌, concat, map,
}
use pr_review.Llm.Ledger.{Ledger, Reservation, Reserved, reserved, reserve, release, record_call}
use pr_review.Llm.Ledger.Held.{
  IsNumbered, Reserves, no_price, over, made, reserve-Reserves, release-held, record_call-held,
}
use pr_review.Llm.Client.{
  Prompt, Response, failed, completed, Hit, World, Client, Tag, unavailable, disabled,
  redacted_block, redacted, request_of, trip, from_cache, on_response, send, ask_provider,
  ask_redacted, ask,
}

-- What a call leaves of the ledger and of what was sent.
pub record IsSettled (w : World) (now : ℕ) (tag : Tag) (p : Prompt) (c c' : Client) : Type 0 where
  -- nothing more is in flight
  pub held : c'.ledger.held ≡ c.ledger.held
  -- the request was sent once, after a reservation for it, or was not sent
  pub sent :
      (c'.sent ≡ c.sent)
      ⊎ ((c'.sent ≡ c.sent ++ p ∷ [])
          × (r : Reservation) × ((reserve w.settings now
                (request_of p)
                tag.run_id
                tag.repo
                c.ledger).0
              ≡ reserved r))

abbrev pub text_of : String × Bool → String
text_of block = block.0

abbrev pub mark_of : String × Bool → Bool
mark_of block = block.1

abbrev outside : Client → Ledger × List Prompt
outside c = (c.ledger, c.sent)

outside_if :
    (b : Bool) (x y : Client) (k : Ledger × List Prompt)
    → outside x ≡ k
    → outside y ≡ k
    → outside (if b then x else y) ≡ k
outside_if true x y k e f = e
outside_if false x y k e f = f

outside-trip :
    (status : Option ℕ) (message model : String) (c : Client)
    → outside (trip status message model c) ≡ outside c
unfolding trip disabled
outside-trip none message model c = refl
outside-trip (some status) message model c =
    outside_if (eqb status 401 || eqb status 403) _ _ _ refl
      (outside_if (eqb status 404) _ _ _ refl refl)

module _ (w : World) (now : ℕ) (tag : Tag) (p : Prompt) (c : Client)
    (numbered : IsNumbered c.ledger) where
  response_held :
      (r : Reservation) (e : r.id ≡ c.ledger.next + 1) (o : Response) (c1 : Client)
      → c1.ledger ≡ record (c.ledger) { held = c.ledger.held ++ r ∷ []; next = c.ledger.next + 1 }
      → ((on_response w now tag p r o c1).1.ledger.held ≡ c.ledger.held)
        × ((on_response w now tag p r o c1).1.sent ≡ c1.sent)
  unfolding on_response
  response_held r e (failed status message) c1 same = (
    ap (λ (k : Ledger × List Prompt). k.0.held)
          (outside-trip status message p.model (record c1 { ledger = release r c1.ledger }))
        ∙ ap (λ l. (release r l).held) same
        ∙ release-held c.ledger r e numbered,
    ap (λ (k : Ledger × List Prompt). k.1)
        (outside-trip status message p.model (record c1 { ledger = release r c1.ledger })),
  )
  response_held r e (completed text completion) c1 same = (
    ap
          (λ l.
            (record_call w.settings now completion p.model tag.stage tag.run_id tag.repo false
              (some r) l).1.held)
          same
        ∙ record_call-held c.ledger r e numbered w.settings now completion p.model tag.stage
            tag.run_id tag.repo false,
    refl,
  )

  send-IsSettled :
      (x : Reserved × Ledger)
      → Reserves c.ledger x
      → reserve w.settings now (request_of p) tag.run_id tag.repo c.ledger ≡ x
      → IsSettled w now tag p c (send w now tag p x c).1
  unfolding send
  send-IsSettled _ no_price e = record { held = refl; sent = inl refl }
  send-IsSettled _ (over scope) e = record { held = refl; sent = inl refl }
  send-IsSettled _ (made r new) e =
      let after =
        response_held r new (w.respond p)
          (record c {
            ledger = record (c.ledger) { held = c.ledger.held ++ r ∷ []; next = c.ledger.next + 1 };
            sent = c.sent ++ p ∷ [];
          })
          refl in
      record { held = after.0; sent = inr (after.1, r, ap (λ (y : Reserved × Ledger). y.0) e) }

  provider-IsSettled : IsSettled w now tag p c (ask_provider w now tag p c).1
  unfolding ask_provider
  provider-IsSettled = by_provider c.has_provider
    where
      by_provider :
          (b : Bool)
          → IsSettled w now tag p c
              (if b
                then send w now tag p
                    (reserve w.settings now (request_of p) tag.run_id tag.repo c.ledger)
                    c
                else (
                  unavailable (concat ("no model provider: " ∷ c.unavailable_reason ∷ [])),
                  c,
                )).1
      by_provider true =
          send-IsSettled _
            (reserve-Reserves w.settings now (request_of p) tag.run_id tag.repo c.ledger) refl
      by_provider false = record { held = refl; sent = inl refl }

  cached-IsSettled : (o : Option Hit) → IsSettled w now tag p c (ask_redacted w now tag p o c).1
  unfolding ask_redacted from_cache record_call
  cached-IsSettled none = provider-IsSettled
  cached-IsSettled (some h) = record { held = refl; sent = inl refl }

-- The same request, with every text of it redacted: the prompt and each block of the system.
pub record IsRedacted (w : World) (given p : Prompt) : Type 0 where
  pub prompt : p.prompt ≡ w.redact given.prompt
  pub texts : map text_of p.system ≡ map (λ block. w.redact (text_of block)) given.system
  pub marks : map mark_of p.system ≡ map mark_of given.system
  pub model : p.model ≡ given.model
  pub max_tokens : p.max_tokens ≡ given.max_tokens

texts-redacted :
    (w : World) (blocks : List (String × Bool))
    → map text_of (map (redacted_block w) blocks) ≡ map (λ block. w.redact (text_of block)) blocks
unfolding redacted_block
texts-redacted w [] = refl
texts-redacted w (b ∷ bs) = ap (λ rest. w.redact (text_of b) ∷ rest) (texts-redacted w bs)

marks-redacted :
    (w : World) (blocks : List (String × Bool))
    → map mark_of (map (redacted_block w) blocks) ≡ map mark_of blocks
unfolding redacted_block
marks-redacted w [] = refl
marks-redacted w (b ∷ bs) = ap (λ rest. mark_of b ∷ rest) (marks-redacted w bs)

redacted-IsRedacted : (w : World) (given : Prompt) → IsRedacted w given (redacted w given)
unfolding redacted
redacted-IsRedacted w given = record {
  prompt = refl;
  texts = texts-redacted w given.system;
  marks = marks-redacted w given.system;
  model = refl;
  max_tokens = refl;
}

-- However a call of `ask` ends, by the cache, a refusal, an answer or an error of the provider, what is in
-- flight afterwards is what was in flight before, if the numbers in flight were given out; and what
-- was sent is at most one request, once, and only after the ledger reserved for it: the one that was
-- given, with the prompt and every text of the system redacted and all else as it was.
pub ask-IsSettled :
    (w : World) (now : ℕ) (tag : Tag) (use_cache : Bool) (given : Prompt) (c : Client)
    → IsNumbered c.ledger
    → IsRedacted w given (redacted w given)
      × IsSettled w now tag (redacted w given) c (ask w now tag use_cache given c).1
unfolding ask
ask-IsSettled w now tag use_cache given c numbered = (
  redacted-IsRedacted w given,
  cached-IsSettled w now tag (redacted w given) c numbered
      (if use_cache then get c.cache (w.key (redacted w given)) else none),
)
