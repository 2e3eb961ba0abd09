-- ===== src/Publisher.antt =====
-- src/publisher.cc and include/trans/publisher.hpp: the object by which a node publishes messages,
-- with its limit on the rate. The clock is an argument, in nanoseconds; the runtime that a message
-- is handed to is a parameter, by what its `publish` answers.
pub mod Rate
mod Examples
use rf_trans_v.Base.{
  ℕ, ◌-◌, ◌*◌, String, Bool, true, false, not, ◌&&◌, List, [], ◌∷◌, str_eq, leb, if◌then◌else◌,
}
use rf_trans_v.Options.{throttled}
use rf_trans_v.Info.Message.{MessagePublisherInfo, default_message_info}

pub record Publisher : Type 0 where
  pub message_publisher : MessagePublisherInfo
  pub last_pub_time : ℕ

-- the default constructor and the other one
abbrev pub no_publisher : Publisher
no_publisher = record { message_publisher = default_message_info; last_pub_time = 0 }

abbrev pub make_publisher : MessagePublisherInfo → Publisher
make_publisher info = record { message_publisher = info; last_pub_time = 0 }

unfoldable pub valid : Publisher → Bool
valid p = not (str_eq p.message_publisher.info.topic "")

-- nanoseconds in a second
abbrev pub second_ns : ℕ
second_ns = 1000000000

-- `throttledUpdateReady`. The source compares the time that has passed with the quotient of a
-- second and the rate, in floating point; here both sides are multiplied by the rate.
unfoldable pub throttled_update_ready : ℕ → Publisher → Bool
unfolding throttled
throttled_update_ready now p =
    if not (throttled p.message_publisher.msg_opts)
    then true
    else leb second_ns ((now - p.last_pub_time) * p.message_publisher.msg_opts.msgs_per_sec)

-- `updateThrottling`, which reads the clock again
unfoldable pub update_throttling : ℕ → ℕ → Publisher → Publisher × Bool
unfolding throttled throttled_update_ready
update_throttling now later p =
    if not (throttled p.message_publisher.msg_opts)
    then (p, true)
    else if not (throttled_update_ready now p)
    then (p, false)
    else (record p { last_pub_time = later }, true)

-- `publishImpl` of a message of a type: the result, and whether the runtime was given the message
unfoldable pub publish_impl : ℕ → ℕ → String → Bool → Publisher → Publisher × Bool × Bool
unfolding valid update_throttling
publish_impl now later msg_type answer p =
    let (q, ready) = update_throttling now later p in
    if not (valid p)
    then (p, false, false)
    else if not (str_eq p.message_publisher.msg_type msg_type)
    then (p, false, false)
    else if not ready
    then (q, true, false)
    else (q, answer, true)
