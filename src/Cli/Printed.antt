-- ===== src/Cli/Printed.antt =====
-- What `messageJson` and `serviceJson` of tools/rf_trans.cc print, as a reader of JSON takes it.
use rf_trans_v.Base.{
  ◌≡◌, ◌<◌, refl, ◌++◌, ◌+◌, ℕ, zero, suc, String, Bool, true, false, some, List, [], ◌∷◌, arith,
  if◌then◌else◌, length, All, All-append, ltb, inl, inr, Bool-cases, str_eq, ◌%◌, ◌/◌,
}
use rf_trans_v.Options.{Scope}
use rf_trans_v.Cli.Endpoints.{MessageEndpointInfo, ServiceEndpointInfo}
use rf_trans_v.Cli.Print.{
  message_members, service_members, message_json, service_json, codes, text_member, event_member,
  scope_name, digits, decimal,
}
use rf_trans_v.Cli.Reader.{IsPlain, Fits, ends, read_object, read-print_object}

append-IsPlain : (t u : List ℕ) → IsPlain t → All (λ d. ends d ≡ false) u → IsPlain (t ++ u)
append-IsPlain [] u p a = elim p [ ]
append-IsPlain (c ∷ t) u p a = (p.0, All-append (λ d. ends d ≡ false) (c ∷ t) u p.1 a)

digits-IsPlain : (rounds n : ℕ) → n < rounds → IsPlain (digits rounds n)
unfolding digits
digits-IsPlain zero n h = elim h [ ]
digits-IsPlain (suc rounds) n h = elim (Bool-cases (ltb n 10)) [
  | inl e ↦ rw e (ground arith, (ground arith, tt))
  | inr e ↦ rw e (
      append-IsPlain (digits rounds (n / 10)) ((b'0' + n % 10) ∷ [])
        (digits-IsPlain rounds (n / 10) (ground arith)) (ground arith, tt))
]

flag-IsPlain : (b : Bool) → IsPlain (if b then codes "true" else codes "false")
flag-IsPlain true = (refl, (refl, (refl, (refl, (refl, tt)))))
flag-IsPlain false = (refl, (refl, (refl, (refl, (refl, (refl, tt))))))

rate-IsPlain : (b : Bool) (n : ℕ) → IsPlain (if b then decimal n else codes "null")
unfolding decimal
rate-IsPlain true n = digits-IsPlain (suc n) n (omega arith)
rate-IsPlain false n = (refl, (refl, (refl, (refl, (refl, tt)))))

scope_name-short : (s : Scope) → length (codes (scope_name s)) < 20
unfolding scope_name
scope_name-short Scope.process = omega arith
scope_name-short Scope.host = omega arith
scope_name-short Scope.all = omega arith

event-Fits :
    (rounds : ℕ) (event : String)
    → 20 < rounds
    → length (codes event) < rounds
    → All (Fits rounds) (event_member event)
event-Fits rounds event h e = elim (Bool-cases (str_eq event "")) [
  | inl s ↦ rw s tt
  | inr s ↦ rw s ((omega arith, e), tt)
]

-- the texts of an endpoint that are printed
abbrev pub texts_of : MessageEndpointInfo → List String
texts_of e = e.topic ∷ e.address ∷ e.control_id ∷ e.process_name ∷ e.node_uuid ∷ e.message_type ∷ []

abbrev pub service_texts_of : ServiceEndpointInfo → List String
service_texts_of e =
    e.topic ∷ e.address ∷ e.socket_id ∷ e.process_name ∷ e.node_uuid ∷ e.request_type
    ∷ e.response_type ∷ []

abbrev pub IsShort : ℕ → String → Type 0
IsShort rounds s = length (codes s) < rounds

message_members-Fits :
    (rounds : ℕ) (event : String) (e : MessageEndpointInfo)
    → 20 < rounds
    → All (IsShort rounds) (event ∷ texts_of e)
    → All (Fits rounds) (message_members event e)
unfolding message_members
message_members-Fits rounds event e h (ev, (a, (b, (c, (d, (f, (g, _))))))) =
    All-append (Fits rounds) (event_member event) _ (event-Fits rounds event h ev) (
      (omega arith, a),
      (
        (omega arith, b),
        (
          (omega arith, c),
          (
            (omega arith, d),
            (
              (omega arith, f),
              (
                (omega arith, g),
                (
                  (omega arith, omega (arith, scope_name-short e.scope)),
                  (
                    (omega arith, flag-IsPlain e.throttled),
                    ((omega arith, rate-IsPlain e.throttled e.messages_per_second), tt),
                  ),
                ),
              ),
            ),
          ),
        ),
      ),
    )

service_members-Fits :
    (rounds : ℕ) (event : String) (e : ServiceEndpointInfo)
    → 20 < rounds
    → All (IsShort rounds) (event ∷ service_texts_of e)
    → All (Fits rounds) (service_members event e)
unfolding service_members
service_members-Fits rounds event e h (ev, (a, (b, (c, (d, (f, (g, (k, _)))))))) =
    All-append (Fits rounds) (event_member event) _ (event-Fits rounds event h ev) (
      (omega arith, a),
      (
        (omega arith, b),
        (
          (omega arith, c),
          (
            (omega arith, d),
            (
              (omega arith, f),
              (
                (omega arith, g),
                ((omega arith, k), ((omega arith, omega (arith, scope_name-short e.scope)), tt)),
              ),
            ),
          ),
        ),
      ),
    )

few_messages : (event : String) (e : MessageEndpointInfo) → length (message_members event e) < 11
unfolding message_members
few_messages event e = ground arith

few_services : (event : String) (e : ServiceEndpointInfo) → length (service_members event e) < 11
unfolding service_members
few_services event e = ground arith

-- Where no text of an endpoint is too long for the reader, what `messageJson` and `serviceJson` print
-- of it is read as the object of its kind and its members, whatever follows: no text breaks out of
-- its quotes.
pub read-endpoint_json :
    (rounds : ℕ) (event : String) (e : MessageEndpointInfo) (f : ServiceEndpointInfo)
    (rest : List ℕ)
    → 20 < rounds
    → All (IsShort rounds) (event ∷ texts_of e)
    → All (IsShort rounds) (event ∷ service_texts_of f)
    → (read_object 11 rounds (message_json event e ++ rest)
        ≡ some (text_member "kind" "message" ∷ message_members event e, rest))
      × (read_object 11 rounds (service_json event f ++ rest)
          ≡ some (text_member "kind" "service" ∷ service_members event f, rest))
unfolding message_json service_json
read-endpoint_json rounds event e f rest h a b = (
  read-print_object 11 rounds (text_member "kind" "message") (message_members event e) rest
      (few_messages event e) (omega arith, omega arith) (message_members-Fits rounds event e h a),
  read-print_object 11 rounds (text_member "kind" "service") (service_members event f) rest
      (few_services event f) (omega arith, omega arith) (service_members-Fits rounds event f h b),
)
