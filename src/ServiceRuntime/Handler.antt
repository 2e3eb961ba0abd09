-- ===== src/ServiceRuntime/Handler.antt =====
-- include/trans/details/req_handler.hpp and rep_handler.hpp: a request that waits for its reply, and
-- a service. The messages' generated classes are fields: what parsing and serializing make.
use rf_trans_v.Base.{ℕ, String, Bool, true, false, Option, none, some, List, [], ◌∷◌, if◌then◌else◌}

-- `V` is the type of replies, `K` that of callbacks; `serialized` is the request message's bytes,
-- and `parse` is `ParseFromString` on a new reply, with its success.
pub record ReqHandler (V K : Type 0) : Type 0 where
  pub handler_uuid : String
  pub node_uuid : String
  pub req_type_name : String
  pub rep_type_name : String
  pub serialized : Option (List ℕ)
  pub parse : List ℕ → V × Bool
  pub cb : Option K
  pub rep : List ℕ
  pub result : Bool
  pub requested : Bool
  pub rep_available : Bool

-- A call of a requester's callback.
pub record Answered (V K : Type 0) : Type 0 where
  pub cb : K
  pub reply : V
  pub result : Bool

module _ {V K : Type 0} where
  -- A failure to parse is only logged.
  unfoldable pub create_reply : ReqHandler V K → List ℕ → V
  create_reply h bytes = (h.parse bytes).0

  unfoldable pub notify_result :
      List ℕ → Bool → ReqHandler V K → ReqHandler V K × List (Answered V K)
  unfolding create_reply
  notify_result rep result h = elim h.cb [
    | some cb ↦ (
      record h { rep_available = true },
      record { cb = cb; reply = create_reply h rep; result = result } ∷ [],
    )
    | none ↦ (record h { rep = rep; result = result; rep_available = true }, [])
  ]

-- A service. `call` is the user's callback on the bytes of a request, parsed and put to the
-- callback: its answer, and the reply message's serialization, with its success.
pub record RepHandler : Type 0 where
  pub handler_uuid : String
  pub req_type_name : String
  pub rep_type_name : String
  pub call : Option (List ℕ → Bool × (Bool × List ℕ))

-- `runCallback`: its answer, and the reply's bytes
unfoldable pub run_callback : List ℕ → RepHandler → Bool × List ℕ
run_callback req h = elim h.call [
  | none ↦ (false, [])
  | some call ↦
      let (done, (serialized, bytes)) = call req in
      if done then (if serialized then (true, bytes) else (false, bytes)) else (false, [])
]
