-- ===== src/Broker/TopicConfig/Given.antt =====
-- The configuration that a send request gets for its topic, and the one that is in the table then
-- (stgbroker/topic_config_manager.go, stgbroker/abstract_send_message_processor.go).
use ttstringgolangiot.Base.{
  ℕ, ◌≡◌, ◌∙◌, inl, inr, Bool, true, false, not, Option, none, some, String, arith, if◌then◌else◌,
  lookup, string_eq, lookup-insert_self, Bool-cases, Option-cases,
}
use ttstringgolangiot.Base.Int.{ℤ, pos}
use ttstringgolangiot.Common.Flags.{is_inherited_perm, topic_build_sys_flag}
use ttstringgolangiot.Broker.TopicConfig.{
  BrokerConfig, TopicConfig, TopicConfigManager, Created, config_of, fails, create_from, changed,
  created, from_default, select_topic_config, create_topic_in_send_message_method,
  create_topic_in_send_message_back_method,
}
use ttstringgolangiot.Broker.TopicConfig.Check.{
  SendMessageRequestHeader, config_for, config_for_new, or_back,
}

abbrev pub or_config : TopicConfig → Option TopicConfig → TopicConfig
or_config d none = d
or_config d (some c) = c

-- What was found or made is what is found from then on; nothing when it failed.
Holds : String → Created × TopicConfigManager → Type 0
Holds topic (config_of c, m) = lookup topic m.topic_config_table ≡ some c
Holds topic (fails e, m) = lookup topic m.topic_config_table ≡ none

create_topic_in_send_message_method-Holds :
    (config : BrokerConfig) (now : ℕ) (topic default : String) (asked : ℤ) (sys_flag : ℕ)
    (m : TopicConfigManager)
    → Holds topic (create_topic_in_send_message_method config now topic default asked sys_flag m)
unfolding create_topic_in_send_message_method create_from created changed Holds
create_topic_in_send_message_method-Holds config now topic default asked sys_flag m =
    elim (Option-cases (lookup topic m.topic_config_table)) [
      | inr (c, e) ↦ rw (create_topic_in_send_message_method, e) e
      | inl e ↦ elim (Bool-cases config.auto_create_topic_enable) [
        | inr fixed ↦ rw (create_topic_in_send_message_method, e, fixed) e
        | inl auto ↦ elim (Option-cases (lookup default m.topic_config_table)) [
          | inl e' ↦ rw (create_topic_in_send_message_method, e, auto, e') e
          | inr (d, e') ↦ elim (Bool-cases (is_inherited_perm d.perm)) [
            | inl i ↦
                rw (create_topic_in_send_message_method, e, auto, e', create_from, i)
                  (lookup-insert_self topic (from_default topic asked sys_flag d)
                    m.topic_config_table)
            | inr i ↦ rw (create_topic_in_send_message_method, e, auto, e', create_from, i) e
          ]
        ]
      ]
    ]

lookup-create_back :
    (now : ℕ) (topic : String) (asked : ℤ) (perm sys_flag : ℕ) (m : TopicConfigManager)
    → lookup topic
        (create_topic_in_send_message_back_method now topic asked perm sys_flag
          m).1.topic_config_table
      ≡ some (create_topic_in_send_message_back_method now topic asked perm sys_flag m).0
unfolding create_topic_in_send_message_back_method created changed
lookup-create_back now topic asked perm sys_flag m =
    elim (Option-cases (lookup topic m.topic_config_table)) [
      | inr (c, e) ↦ rw (create_topic_in_send_message_back_method, e) e
      | inl e ↦
          rw (create_topic_in_send_message_back_method, e)
            (lookup-insert_self topic _ m.topic_config_table)
    ]

pub Gives : String → Option TopicConfig × TopicConfigManager → Type 0
Gives topic (none, m) = lookup topic m.topic_config_table ≡ none
Gives topic (some c, m) = lookup topic m.topic_config_table ≡ some c

Gives-or_back :
    (topic : String) (retry : Bool) (back : TopicConfig × TopicConfigManager)
    (made : Created × TopicConfigManager)
    → lookup topic back.1.topic_config_table ≡ some back.0
    → Holds topic made
    → Gives topic (or_back retry back made)
unfolding Gives Holds
Gives-or_back topic retry back (config_of c, m) b h = h
Gives-or_back topic true back (fails e, m) b h = b
Gives-or_back topic false back (fails e, m) b h = h

pub Gives-some :
    (topic : String) (p : Option TopicConfig × TopicConfigManager) (c : TopicConfig)
    → Gives topic p
    → p.0 ≡ some c
    → lookup topic p.1.topic_config_table ≡ some c
unfolding Gives
Gives-some topic (none, m) c g e = ground arith
Gives-some topic (some d, m) c g e = g ∙ e

pub Gives-none :
    (topic : String) (p : Option TopicConfig × TopicConfigManager)
    → Gives topic p
    → p.0 ≡ none
    → lookup topic p.1.topic_config_table ≡ none
unfolding Gives
Gives-none topic (none, m) g e = g
Gives-none topic (some d, m) g e = ground arith

-- The configuration that the check goes by.
pub config_for-Gives :
    (config : BrokerConfig) (permission : ℕ) (is_retry : String → Bool) (now : ℕ)
    (h : SendMessageRequestHeader) (m : TopicConfigManager)
    → Gives h.topic (config_for config permission is_retry now h m)
unfolding config_for config_for_new select_topic_config Gives Holds
config_for-Gives config permission is_retry now h m =
    elim (Option-cases (lookup h.topic m.topic_config_table)) [
      | inr (c, e) ↦ rw (config_for, e) e
      | inl e ↦
          let retry = is_retry h.topic in
          let sys_flag = if h.unit_mode then topic_build_sys_flag (not retry) retry else 0 in
          let made =
            create_topic_in_send_message_method config now h.topic h.default_topic
              h.default_topic_queue_nums sys_flag m in
          rw (config_for, e)
            (Gives-or_back h.topic retry
              (create_topic_in_send_message_back_method now h.topic (pos 1) 6 sys_flag made.1) made
              (lookup-create_back now h.topic (pos 1) 6 sys_flag made.1)
              (create_topic_in_send_message_method-Holds config now h.topic h.default_topic
                h.default_topic_queue_nums sys_flag m))
    ]
