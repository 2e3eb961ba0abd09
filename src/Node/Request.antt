-- ===== src/Node/Request.antt =====
-- `request` of include/trans/node.hpp, with a callback and blocking. `R` is the type of replies and
-- `K` that of callbacks.
use rf_trans_v.Base.{◌≡◌, refl, Bool, true, false, Option, none, some, List, [], ◌∷◌, ℕ}

-- What a local service makes of the request: its answer, and the reply that it fills in, which is
-- new at first. `none` where there is no local service of the types.
abbrev pub Local : Type 0 → Type 0
Local R = Option (Bool × R)

-- the callback's call, if any, and what `request` returns; `remote` is the answer of the shared
-- process to the request
unfoldable pub request_with : {R : Type 0} → Local R → Bool → List (R × Bool) × Bool
request_with (some (result, reply)) remote = ((reply, result) ∷ [], true)
request_with none remote = ([], remote)

-- What waits at the end of a blocking request: the caller's reply and result, and what is returned.
pub record Blocking (R : Type 0) : Type 0 where
  pub reply : R
  pub result : Bool
  pub returned : Bool

-- `notified` is what the handler holds when the wait ends, if it ended by a reply: whether it
-- succeeded, and the bytes. `parse` is `ParseFromString` on the caller's reply, with its success.
unfoldable pub request_blocking :
    {R : Type 0}
    → (R → List ℕ → R × Bool)
    → Local R
    → Bool
    → Option (Bool × List ℕ)
    → R
    → Bool
    → Blocking R
request_blocking parse (some (answer, made)) remote notified reply result = record {
  reply = reply;
  result = answer;
  returned = true;
}
request_blocking parse none false notified reply result = record {
  reply = reply;
  result = false;
  returned = false;
}
request_blocking parse none true none reply result = record {
  reply = reply;
  result = result;
  returned = false;
}
request_blocking parse none true (some (false, bytes)) reply result = record {
  reply = reply;
  result = false;
  returned = true;
}
request_blocking parse none true (some (true, bytes)) reply result =
    let (parsed, ok) = parse reply bytes in record { reply = parsed; result = ok; returned = true }

module _ {R : Type 0} (parse : R → List ℕ → R × Bool) where
  -- A blocking request that a service of the same process answers leaves the caller's reply as it
  -- was, whatever the service made, and says that it succeeded where the service does; with a
  -- callback the same request hands out the reply that the service made.
  pub request_blocking-local :
      (answer : Bool) (made reply : R) (remote result : Bool) (notified : Option (Bool × List ℕ))
      → let r = request_blocking parse (some (answer, made)) remote notified reply result in
        (r.reply ≡ reply)
        × (r.result ≡ answer)
        × (r.returned ≡ true)
        × (request_with (some (answer, made)) remote ≡ ((made, answer) ∷ [], true))
  unfolding request_blocking request_with
  request_blocking-local answer made reply remote result notified = (refl, refl, refl, refl)
