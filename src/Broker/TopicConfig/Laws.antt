-- ===== src/Broker/TopicConfig/Laws.antt =====
-- What the operations on topic configurations give.
use ttstringgolangiot.Base.{
  ℕ, ◌≡◌, refl, sym, ap, ap₂, ◌∙◌, ◌⊎◌, ◌↔◌, subst, inl, inr, Bool, true, false, not, ◌&&◌, ◌||◌,
  none, some, [], ◌∷◌, String, arith, Dict, if◌then◌else◌, lookup, string_eq, ◌≟◌, ≟_eq, Bool-cases,
  Option-cases,
}
use ttstringgolangiot.Base.Int.{ℤ, ltb_ℤ}
use ttstringgolangiot.Common.Flags.{is_writeable_perm}
use ttstringgolangiot.Broker.TopicConfig.{
  BrokerConfig, TopicConfig, TopicConfigManager, changed, select_topic_config,
  update_order_topic_config, update_orders, is_key, is_order_topic, is_topic_can_send_message,
}
use ttstringgolangiot.Broker.TopicConfig.Check.{
  SendMessageRequestHeader, unchanged, config_for, msg_check, id_valid,
}
use ttstringgolangiot.Broker.TopicConfig.Given.{or_config, Gives-some, Gives-none, config_for-Gives}

not_changed :
    (ordered order rest : Bool)
    → ((if ordered then not order else order) || rest) ≡ false
    → ordered ≡ order
not_changed true true rest h = refl
not_changed true false rest h = ground arith
not_changed false true rest h = ground arith
not_changed false false rest h = refl

lookup-update_orders :
    (orders : Dict String String) (topic : String) (c : TopicConfig)
    (table : Dict String TopicConfig)
    → lookup topic table ≡ some c
    → lookup topic (update_orders orders table).1 ≡ some (record c { order = is_key topic orders })
unfolding update_orders
lookup-update_orders orders topic c [] h = ground arith
lookup-update_orders orders topic c ((t, d) ∷ table) h = elim (Bool-cases (t ≟ topic)) [
  | inl e ↦
      let here = ap (or_config d) (rw e at h) in
      rw e (
        ap some (
          ap₂ {A = TopicConfig} (λ x o. record x { order = is_key o orders }) here
            (≟_eq t topic e)))
  | inr e ↦ rw e (lookup-update_orders orders topic c table (rw e at h))
]

update_orders-same :
    (orders : Dict String String) (table : Dict String TopicConfig)
    → (update_orders orders table).0 ≡ false
    → (update_orders orders table).1 ≡ table
unfolding update_orders
update_orders-same orders [] h = refl
update_orders-same orders ((t, d) ∷ table) h =
    let ordered : is_key t orders ≡ d.order =
      not_changed (is_key t orders) d.order (update_orders orders table).0 h in
    let rest : (update_orders orders table).0 ≡ false = ground arith in
    ap₂ (λ o table'. (t, record d { order = o }) ∷ table') ordered
      (update_orders-same orders table rest)

-- After updateOrderTopicConfig with a table, a topic is ordered exactly when it is a key of the
-- table, and its configuration is as before otherwise.
pub update_order_topic_config_lem :
    (now : ℕ) (orders : Dict String String) (m : TopicConfigManager) (topic : String)
    (c : TopicConfig)
    → select_topic_config topic m ≡ some c
    → select_topic_config topic (update_order_topic_config now (some orders) m)
      ≡ some (record c { order = is_key topic orders })
unfolding update_order_topic_config select_topic_config changed
update_order_topic_config_lem now orders m topic c h =
    let updated = lookup-update_orders orders topic c m.topic_config_table h in
    elim (Bool-cases (update_orders orders m.topic_config_table).0) [
      | inl e ↦ rw (update_order_topic_config, e) updated
      | inr e ↦
          rw (update_order_topic_config, e)
            (ap (lookup topic) (sym (update_orders-same orders m.topic_config_table e)) ∙ updated)
    ]

-- A queue that the check takes is one that can be read or one that can be written.
below_id_valid :
    (n : ℤ) (c : TopicConfig)
    → (ltb_ℤ n (id_valid c) ≡ true)
      ↔ ((ltb_ℤ n c.read_queue_nums ≡ true) ⊎ (ltb_ℤ n c.write_queue_nums ≡ true))
below_id_valid n c = (there, back)
  where
    there :
        ltb_ℤ n (id_valid c) ≡ true
        → (ltb_ℤ n c.read_queue_nums ≡ true) ⊎ (ltb_ℤ n c.write_queue_nums ≡ true)
    there h = elim (Bool-cases (ltb_ℤ c.read_queue_nums c.write_queue_nums)) [
      | inl e ↦ inr (rw e at h)
      | inr e ↦ inl (rw e at h)
    ]

    back :
        (ltb_ℤ n c.read_queue_nums ≡ true) ⊎ (ltb_ℤ n c.write_queue_nums ≡ true)
        → ltb_ℤ n (id_valid c) ≡ true
    back (inl h) = elim (Bool-cases (ltb_ℤ c.read_queue_nums c.write_queue_nums)) [
      | inl e ↦ rw e (ground arith)
      | inr e ↦ rw e h
    ]
    back (inr h) = elim (Bool-cases (ltb_ℤ c.read_queue_nums c.write_queue_nums)) [
      | inl e ↦ rw e h
      | inr e ↦ rw e (ground arith)
    ]

module _ (config : BrokerConfig) (permission : ℕ) (is_retry : String → Bool) (now : ℕ)
    (h : SendMessageRequestHeader) (m : TopicConfigManager) where
  -- What a message that passes the check has, in the tables after it.
  pub record Passes : Type 0 where
    pub may_send : (is_writeable_perm permission ≡ true) ⊎ (is_order_topic h.topic m ≡ false)
    pub is_free : is_topic_can_send_message config h.topic ≡ true
    pub topic : TopicConfig
    pub is_found :
        select_topic_config h.topic (msg_check config permission is_retry now h m).1 ≡ some topic
    pub has_queue :
        (ltb_ℤ h.queue_id topic.read_queue_nums ≡ true)
        ⊎ (ltb_ℤ h.queue_id topic.write_queue_nums ≡ true)

  unchanged-Passes : (msg_check config permission is_retry now h m).0 ≡ unchanged → Passes
  unfolding msg_check select_topic_config
  unchanged-Passes e =
      elim (Bool-cases (not (is_writeable_perm permission) && is_order_topic h.topic m)) [
        | inl f ↦ let e' = rw (msg_check, f) at e in ground arith
        | inr f ↦ elim (Bool-cases (is_topic_can_send_message config h.topic)) [
          | inr f' ↦ let e' = rw (msg_check, f, f') at e in ground arith
          | inl f' ↦ elim (Option-cases (config_for config permission is_retry now h m).0) [
            | inl none_found ↦ let e' = rw (msg_check, f, f', none_found) at e in ground arith
            | inr (c, found) ↦ elim (Bool-cases (ltb_ℤ h.queue_id (id_valid c))) [
              | inl below ↦ record {
                may_send = may (is_writeable_perm permission) (is_order_topic h.topic m) f;
                is_free = f';
                topic = c;
                is_found =
                    rw (msg_check, f, f')
                      (Gives-some h.topic (config_for config permission is_retry now h m) c
                        (config_for-Gives config permission is_retry now h m) found);
                has_queue = (below_id_valid h.queue_id c).0 below;
              }
              | inr above ↦ let e' = rw (msg_check, f, f', found, above) at e in ground arith
            ]
          ]
        ]
      ]
    where
      may : (w o : Bool) → (not w && o) ≡ false → (w ≡ true) ⊎ (o ≡ false)
      may true o e = inl refl
      may false o e = inr e

  Passes-unchanged : Passes → (msg_check config permission is_retry now h m).0 ≡ unchanged
  unfolding msg_check select_topic_config
  Passes-unchanged p =
      let f = guard (is_writeable_perm permission) (is_order_topic h.topic m) p.may_send in
      let gives = config_for-Gives config permission is_retry now h m in
      let known : lookup h.topic
            (config_for config permission is_retry now h m).1.topic_config_table
          ≡ some p.topic =
        rw (msg_check, f, p.is_free) at p.is_found in
      elim (Option-cases (config_for config permission is_retry now h m).0) [
        | inl none_found ↦
            let e' : none ≡ some p.topic =
              sym (
                Gives-none h.topic (config_for config permission is_retry now h m) gives none_found)
              ∙ known in
            ground arith
        | inr (c, found) ↦
            let same : p.topic ≡ c = ap (or_config c) (
              sym known
              ∙ Gives-some h.topic (config_for config permission is_retry now h m) c gives found) in
            let below = (below_id_valid h.queue_id c).1 (
              subst
                (λ d.
                  (ltb_ℤ h.queue_id d.read_queue_nums ≡ true)
                  ⊎ (ltb_ℤ h.queue_id d.write_queue_nums ≡ true))
                same p.has_queue) in
            rw (msg_check, f, p.is_free, found, below) refl
      ]
    where
      guard : (w o : Bool) → (w ≡ true) ⊎ (o ≡ false) → (not w && o) ≡ false
      guard true o h = refl
      guard false o (inl h) = ground arith
      guard false o (inr h) = h

  -- A message passes the check exactly when the broker can be written or its topic is not ordered,
  -- the topic is not a reserved one, and, in the table as the check leaves it, the topic has a
  -- configuration with more queues to read or more queues to write than the number of the queue.
  pub msg_check-unchanged : ((msg_check config permission is_retry now h m).0 ≡ unchanged) ↔ Passes
  msg_check-unchanged = (unchanged-Passes, Passes-unchanged)
