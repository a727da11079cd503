-- ===== src/Broker/TopicConfig/Versions.antt =====
-- The version of the topic configurations moves with the table.
use ttstringgolangiot.Base.{
  ℕ, suc, ◌≡◌, refl, ap, ◌∙◌, ◌⊎◌, inl, inr, Option, none, some, String, Dict, arith, ◌+◌, ◌<◌,
  lookup, string_eq, Bool-cases, Option-cases,
}
use ttstringgolangiot.Base.Int.{ℤ}
use ttstringgolangiot.Common.Flags.{is_inherited_perm}
use ttstringgolangiot.Broker.TopicConfig.{
  BrokerConfig, TopicConfig, TopicConfigManager, create_from, changed, created,
  create_topic_in_send_message_method, create_topic_in_send_message_back_method,
  update_topic_config, delete_topic_config, update_order_topic_config, update_orders,
}

-- The operations of the manager.
pub data Step (config : BrokerConfig) : TopicConfigManager → TopicConfigManager → Type 0 where
  creates :
      (now : ℕ) (topic default : String) (asked : ℤ) (sys_flag : ℕ) (m : TopicConfigManager)
      → Step config m
          (create_topic_in_send_message_method config now topic default asked sys_flag m).1
  creates_back :
      (now : ℕ) (topic : String) (asked : ℤ) (perm sys_flag : ℕ) (m : TopicConfigManager)
      → Step config m (create_topic_in_send_message_back_method now topic asked perm sys_flag m).1
  updates :
      (now : ℕ) (c : TopicConfig) (m : TopicConfigManager)
      → Step config m (update_topic_config now c m)
  orders :
      (now : ℕ) (table : Option (Dict String String)) (m : TopicConfigManager)
      → Step config m (update_order_topic_config now table m)
  deletes :
      (now : ℕ) (topic : String) (m : TopicConfigManager)
      → Step config m (delete_topic_config now topic m)

pub data Steps (config : BrokerConfig) : TopicConfigManager → TopicConfigManager → Type 0 where
  stays : (m : TopicConfigManager) → Steps config m m
  goes : {m n p : TopicConfigManager} → Steps config m n → Step config n p → Steps config m p

-- Nothing happened, or there is a new version, which was written.
pub IsVersioned : TopicConfigManager → TopicConfigManager → Type 0
IsVersioned m n = (n ≡ m) ⊎ ((n.counter ≡ suc m.counter) × (n.persisted ≡ suc m.persisted))

create_from-IsVersioned :
    (now : ℕ) (topic : String) (asked : ℤ) (sys_flag : ℕ) (default : Option TopicConfig)
    (m : TopicConfigManager)
    → IsVersioned m (create_from now topic asked sys_flag default m).1
unfolding create_from created changed IsVersioned
create_from-IsVersioned now topic asked sys_flag none m = inl refl
create_from-IsVersioned now topic asked sys_flag (some default) m =
    elim (Bool-cases (is_inherited_perm default.perm)) [
      | inl e ↦ rw (create_from, e) (inr (refl, refl))
      | inr e ↦ rw (create_from, e) (inl refl)
    ]

Step-IsVersioned :
    (config : BrokerConfig) (m n : TopicConfigManager) → Step config m n → IsVersioned m n
unfolding create_topic_in_send_message_method create_topic_in_send_message_back_method
    update_topic_config delete_topic_config update_order_topic_config created changed IsVersioned
Step-IsVersioned config m n (creates now topic default asked sys_flag _) =
    elim (Option-cases (lookup topic m.topic_config_table)) [
      | inr (c, e) ↦ rw (create_topic_in_send_message_method, e) (inl refl)
      | inl e ↦ elim (Bool-cases config.auto_create_topic_enable) [
        | inl auto ↦
            rw (create_topic_in_send_message_method, e, auto)
              (create_from-IsVersioned now topic asked sys_flag
                (lookup default m.topic_config_table) m)
        | inr fixed ↦ rw (create_topic_in_send_message_method, e, fixed) (inl refl)
      ]
    ]
Step-IsVersioned config m n (creates_back now topic asked perm sys_flag _) =
    elim (Option-cases (lookup topic m.topic_config_table)) [
      | inr (c, e) ↦ rw (create_topic_in_send_message_back_method, e) (inl refl)
      | inl e ↦ rw (create_topic_in_send_message_back_method, e) (inr (refl, refl))
    ]
Step-IsVersioned config m n (updates now c _) = inr (refl, refl)
Step-IsVersioned config m n (orders now none _) = inl refl
Step-IsVersioned config m n (orders now (some table) _) =
    elim (Bool-cases (update_orders table m.topic_config_table).0) [
      | inl e ↦ rw (update_order_topic_config, e) (inr (refl, refl))
      | inr e ↦ rw (update_order_topic_config, e) (inl refl)
    ]
Step-IsVersioned config m n (deletes now topic _) =
    elim (Option-cases (lookup topic m.topic_config_table)) [
      | inl e ↦ rw (delete_topic_config, e) (inl refl)
      | inr (c, e) ↦ rw (delete_topic_config, e) (inr (refl, refl))
    ]

-- After any operations the manager is as it was, or its version is greater than before and it was
-- written once for each version in between.
pub Steps-version :
    (config : BrokerConfig) (m n : TopicConfigManager)
    → Steps config m n
    → (n ≡ m) ⊎ ((m.counter < n.counter) × (n.counter + m.persisted ≡ m.counter + n.persisted))
unfolding IsVersioned
Steps-version config m n (stays _) = inl refl
Steps-version config m n (goes {n = l} first last) = elim (Steps-version config m l first) [
  | inl e ↦ elim (Step-IsVersioned config l n last) [
    | inl e' ↦ inl (e' ∙ e)
    | inr (counter, persisted) ↦
        let c = ap (λ x. x.counter) e in
        let p = ap (λ x. x.persisted) e in inr (omega arith, omega arith)
  ]
  | inr (less, sum) ↦ elim (Step-IsVersioned config l n last) [
    | inl e' ↦
        let c = ap (λ x. x.counter) e' in
        let p = ap (λ x. x.persisted) e' in inr (omega arith, omega arith)
    | inr (counter, persisted) ↦ inr (omega arith, omega arith)
  ]
]
