-- ===== src/Filter.antt =====
-- internal/app/domain/model/filter.go: the enumerations and the records of the spam filter. `Rule`
-- has the translation of rules into the rule language, `Key` a metric's key and `Timeout` its life,
-- `Metric` the operations on metrics, and `Listing` the listings.
pub mod Key
pub mod Listing
pub mod Rule
pub mod Timeout
pub mod Metric
use easymail.Base.{ℕ, Bytes}
use easymail.Base.Int.{ℤ}

-- `FilterCategory`.
pub data FilterCategory : Type 0 where
  all unknown ham spam : FilterCategory

-- `FilterAction`.
pub data FilterAction : Type 0 where
  accept trash defer reject discard quarantine : FilterAction

-- The numbers of the actions; the first is 1.
abbrev pub action_number : FilterAction → ℕ
action_number accept = 1
action_number trash = 2
action_number defer = 3
action_number reject = 4
action_number discard = 5
action_number quarantine = 6

-- `FilterStage`.
pub data FilterStage : Type 0 where
  connect helo mail_from rcpt_to header message : FilterStage

-- `MetricOperation`.
pub data MetricOperation : Type 0 where
  count collect : MetricOperation

-- `MetricUnit`; `other` is a number that names no unit.
pub data MetricUnit : Type 0 where
  minute hour day week month year : MetricUnit
  other : ℕ → MetricUnit

-- `FilterRule`; times in nanoseconds.
pub record FilterRule : Type 0 where
  pub id : ℤ
  pub priority : ℤ
  pub description : Bytes
  pub action : FilterAction
  pub client_ip : Bytes
  pub sender : Bytes
  pub header_from : Bytes
  pub nick : Bytes
  pub rcpt : Bytes
  pub size : Bytes
  pub mailer : Bytes
  pub subject : Bytes
  pub text : Bytes
  pub html : Bytes
  pub text_hash : Bytes
  pub attach_name : Bytes
  pub attach_hash : Bytes
  pub attach_md5 : Bytes
  pub attach_content : Bytes
  pub url : Bytes
  pub assembly : Bytes
  pub account_id : ℤ
  pub status : ℕ
  pub create_time : ℕ
  pub update_time : ℕ
  pub delete_time : ℕ
