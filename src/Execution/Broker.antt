-- ===== src/Execution/Broker.antt =====
-- What a request to the broker comes to: Trading212Client._json_request and its callers, over
-- the answer of the transport.
use japan_agent.Base.{
  ℕ, ◌≡◌, Bool, true, false, ◌&&◌, ◌||◌, not, if◌then◌else◌, leb, ltb, ◌==◌, arith, ◌≤◌, ◌<◌, ◌↔◌,
  ◌⊎◌, ◌≢◌, refl, inl, inr,
}
use japan_agent.Storage.Rows.{BrokerOrder}

-- A body, as far as `json.loads` and the type tests look at it: `undecodable` is one on which it
-- raises another exception than JSONDecodeError, such as UnicodeDecodeError on bytes that are not
-- UTF-8. The bodies of order_history are not read here.
pub data Body : Type 0 where
  no_body undecodable invalid_json other_json : Body
  order_object : BrokerOrder → Body

pub data HttpAnswer : Type 0 where
  answer : ℕ → Body → HttpAnswer
  transport_error : HttpAnswer

pub data Method : Type 0 where
  get post : Method

-- BrokerRejected with its status, BrokerTransportUncertain, BrokerError itself, and the exception
-- that `except json.JSONDecodeError` does not catch
pub data BrokerError : Type 0 where
  rejected : ℕ → BrokerError
  uncertain : BrokerError
  unusable : BrokerError
  escaped : BrokerError

pub data BrokerReply : Type 0 where
  order : BrokerOrder → BrokerReply
  failure : BrokerError → BrokerReply

abbrev is_post : Method → Bool
is_post post = true
is_post get = false

-- The body of a successful answer: `None`, an object, or something else.
abbrev parsed : Method → Body → BrokerReply
parsed method (order_object o) = order o
parsed method undecodable = failure escaped
parsed method invalid_json = failure (if is_post method then uncertain else unusable)
parsed method _ = failure (if is_post method then uncertain else unusable)

-- `_json_request`, followed by the caller's test that the result is an object.
unfoldable pub request_order : Method → HttpAnswer → BrokerReply
request_order method transport_error = failure uncertain
request_order method (answer status body) =
    if not (leb 200 status && ltb status 300)
    then failure (
        if is_post method && (leb 500 status || (status == 408 || status == 429))
        then uncertain
        else rejected status)
    else parsed method body

-- `place_market_order` and `order`
unfoldable pub place_market_order : HttpAnswer → BrokerReply
unfolding request_order
place_market_order a = request_order post a

unfoldable pub fetch_order : HttpAnswer → BrokerReply
unfolding request_order
fetch_order a = request_order get a

abbrev pub IsSuccess : ℕ → Type 0
IsSuccess status = (200 ≤ status) × (status < 300)

abbrev pub IsNoSuccess : ℕ → Type 0
IsNoSuccess status = (status < 200) ⊎ (300 ≤ status)

-- A status that leaves open whether the order was accepted.
abbrev pub IsFault : ℕ → Type 0
IsFault status = IsNoSuccess status × ((500 ≤ status) ⊎ ((status ≡ 408) ⊎ (status ≡ 429)))

-- A status that proves that the order was not accepted.
abbrev pub IsClientRefusal : ℕ → Type 0
IsClientRefusal status = IsNoSuccess status × (status < 500) × (status ≢ 408) × (status ≢ 429)

-- A body that json.loads reads or calls invalid, and that is no object.
abbrev pub IsNoOrder : Body → Type 0
IsNoOrder b = (b ≡ no_body) ⊎ ((b ≡ invalid_json) ⊎ (b ≡ other_json))

-- An answer from which nothing is known about the order.
abbrev pub IsUnknown : HttpAnswer → Type 0
IsUnknown transport_error = Unit
IsUnknown (answer status b) = IsFault status ⊎ (IsSuccess status × IsNoOrder b)

status_cases : (status : ℕ) → IsSuccess status ⊎ (IsFault status ⊎ IsClientRefusal status)
status_cases status = ground arith

succeeded :
    (status : ℕ) (b : Body)
    → IsSuccess status
    → place_market_order (answer status b) ≡ parsed post b
unfolding place_market_order
succeeded status b h = ground arith

faulty :
    (status : ℕ) (b : Body)
    → IsFault status
    → place_market_order (answer status b) ≡ failure uncertain
unfolding place_market_order
faulty status b h = ground arith

refusal :
    (n : ℕ) (b : Body) → IsClientRefusal n → place_market_order (answer n b) ≡ failure (rejected n)
unfolding place_market_order
refusal n b h = ground arith

-- What the reply to an order says of the broker's answer.
pub record IsReport (a : HttpAnswer) (n : ℕ) (reply : BrokerReply) : Type 0 where
  pub refused : (reply ≡ failure (rejected n)) ↔ ((b : Body) × (a ≡ answer n b) × IsClientRefusal n)
  pub unknown : (reply ≡ failure uncertain) ↔ IsUnknown a
  pub escaping :
      (reply ≡ failure escaped)
      ↔ ((status : ℕ) × IsSuccess status × (a ≡ answer status undecodable))
  pub accepted :
      (o : BrokerOrder)
      → (reply ≡ order o) ↔ ((status : ℕ) × IsSuccess status × (a ≡ answer status (order_object o)))
  pub no_other : reply ≢ failure unusable

unknown-IsReport :
    (status n : ℕ) (b : Body)
    → IsUnknown (answer status b)
    → IsReport (answer status b) n (failure uncertain)
unknown-IsReport status n b u = record {
  refused = (λ e. cc, λ (b', e, r). ground (arith, u, e, r));
  unknown = (λ e. u, λ v. refl);
  escaping = (λ e. cc, λ (s, r, e). ground (arith, u, e, r));
  accepted = λ o. (λ e. cc, λ (s, r, e). ground (arith, u, e, r));
  no_other = λ e. cc;
}

success-IsReport :
    (status n : ℕ) (b : Body) → IsSuccess status → IsReport (answer status b) n (parsed post b)
success-IsReport status n no_body h = unknown-IsReport status n no_body (inr (h, inl refl))
success-IsReport status n undecodable h = record {
  refused = (λ e. cc, λ (b, e, r). ground arith);
  unknown = (λ e. cc, λ u. ground arith);
  escaping = (λ e. (status, h, refl), λ r. refl);
  accepted = λ o. (λ e. cc, λ (s, r, e). cc);
  no_other = λ e. cc;
}
success-IsReport status n invalid_json h =
    unknown-IsReport status n invalid_json (inr (h, inr (inl refl)))
success-IsReport status n other_json h =
    unknown-IsReport status n other_json (inr (h, inr (inr refl)))
success-IsReport status n (order_object o) h = record {
  refused = (λ e. cc, λ (b, e, r). ground arith);
  unknown = (λ e. cc, λ u. ground arith);
  escaping = (λ e. cc, λ (s, r, e). cc);
  accepted = λ o'. (λ e. (status, h, cc), λ (s, r, e). cc);
  no_other = λ e. cc;
}

same_status : (m n : ℕ) → failure (rejected m) ≡ failure (rejected n) → m ≡ n
same_status m n e = cc

refusal-IsReport :
    (status n : ℕ) (b : Body)
    → IsClientRefusal status
    → IsReport (answer status b) n (failure (rejected status))
refusal-IsReport status n b h = record {
  refused = (λ e. (b, cc, rw (same_status status n e) at h), λ (b', e, r). cc);
  unknown = (λ e. cc, λ u. ground arith);
  escaping = (λ e. cc, λ (s, r, e). ground (arith, e, r));
  accepted = λ o. (λ e. cc, λ (s, r, e). ground (arith, e, r));
  no_other = λ e. cc;
}

-- The reply to a market order tells the broker's answer. It is a rejection with status n exactly
-- if the answer has that status, outside 200 to 299, below 500 and neither 408 nor 429; uncertain
-- exactly on a transport error, on another status outside 200 to 299, and on a status of success
-- with a body that is empty, invalid JSON or no object; an order exactly if a status of success
-- comes with it; never a plain broker error; and the exception of json.loads escapes exactly on a
-- status of success with a body that cannot be decoded.
pub place_market_order_iff : (a : HttpAnswer) (n : ℕ) → IsReport a n (place_market_order a)
unfolding place_market_order
place_market_order_iff transport_error n = record {
  refused = (λ e. cc, λ (b, e, r). cc);
  unknown = (λ e. tt, λ u. refl);
  escaping = (λ e. cc, λ (s, r, e). cc);
  accepted = λ o. (λ e. cc, λ (s, r, e). cc);
  no_other = λ e. cc;
}
place_market_order_iff (answer status b) n = elim (status_cases status) [
  | inl success ↦ rw (succeeded status b success) (success-IsReport status n b success)
  | inr (inl fault) ↦ rw (faulty status b fault) (unknown-IsReport status n b (inl fault))
  | inr (inr refused) ↦ rw (refusal status b refused) (refusal-IsReport status n b refused)
]
