-- ===== src/Tests/TopicTests.antt =====
-- A broker with a default topic, requests that wait at a queue, and a topic with one queue.
use mathlib.Core.List.{Memᴰ}
use mathlib.Core.List.Memᴰ.{head}
use ttstringgolangiot.Base.{
  ℕ, ◌≡◌, ◌<◌, ◌+◌, ◌⊎◌, ◌↔◌, ◌++◌, refl, true, false, not, some, List, [], ◌∷◌,
}
use ttstringgolangiot.Base.Int.{pos}
use ttstringgolangiot.Broker.TopicConfig.{
  BrokerConfig, TopicConfig, TopicConfigManager, update_topic_config,
}
use ttstringgolangiot.Broker.TopicConfig.Check.{SendMessageRequestHeader, unchanged, msg_check}
use ttstringgolangiot.Broker.TopicConfig.Versions.{stays, goes, updates, Steps-version}
use ttstringgolangiot.Broker.TopicConfig.Laws.{Passes, msg_check-unchanged}
use ttstringgolangiot.Store.Properties.{single_tag}
use ttstringgolangiot.Broker.PullHold.{
  PullRequest, is_due, keep, notify_message_arriving, notify_message_arriving_lem,
}
use ttstringgolangiot.Registry.RouteInfo.{BrokerData}
use ttstringgolangiot.Registry.RouteInfo.Pickup.{TopicRouteData, pickup_topic_route_data}
use ttstringgolangiot.Registry.RouteInfo.Pickup.Finds.{pickup_topic_route_data-finds}
use ttstringgolangiot.Tests.RegistryTests.{list_set, queue_of, two_queues, names_b_c}

abbrev broker_config : BrokerConfig
broker_config = record {
  auto_create_topic_enable = true;
  auto_create_subscription_group = true;
  default_topic_queue_nums = pos 8;
  broker_cluster_name = "c";
  cluster_topic_enable = true;
  broker_name = "b";
  broker_topic_enable = true;
}

abbrev default_config : TopicConfig
default_config = record {
  topic_name = "MY_DEFAULT_TOPIC";
  read_queue_nums = pos 8;
  write_queue_nums = pos 8;
  perm = 7;
  topic_filter_type = single_tag;
  topic_sys_flag = 0;
  order = false;
}

abbrev one_topic : TopicConfigManager
one_topic = record {
  topic_config_table = ("MY_DEFAULT_TOPIC", default_config) ∷ [];
  counter = 1;
  timestamp = 5;
  persisted = 1;
  registered = 0;
}

abbrev send_header : SendMessageRequestHeader
send_header = record {
  topic = "t";
  default_topic = "MY_DEFAULT_TOPIC";
  default_topic_queue_nums = pos 4;
  queue_id = pos 3;
  unit_mode = false;
}

msg_check-unchanged_example :
    ((msg_check broker_config 6 (λ n. false) 6 send_header one_topic).0 ≡ unchanged)
    ↔ Passes broker_config 6 (λ n. false) 6 send_header one_topic
msg_check-unchanged_example =
    msg_check-unchanged broker_config 6 (λ n. false) 6 send_header one_topic

abbrev updated : TopicConfigManager
updated = update_topic_config 7 default_config one_topic

Steps-version_example :
    (updated ≡ one_topic) ⊎ ((1 < updated.counter) × (updated.counter + 1 ≡ 1 + updated.persisted))
Steps-version_example =
    Steps-version broker_config one_topic updated
      (goes (stays one_topic) (updates 7 default_config one_topic))

abbrev pull_request : ℕ → ℕ → PullRequest
pull_request command offset = record {
  command = command;
  timeout_millis = 30;
  suspend_timestamp = 80;
  pull_from_this_offset = offset;
}

abbrev waiting : List PullRequest
waiting = pull_request 1 5 ∷ pull_request 2 9 ∷ []

notify_message_arriving_lem_example :
    notify_message_arriving 6 6 100 [] waiting
    ≡ (keep (is_due 6 6 100) waiting, keep (λ r. not (is_due 6 6 100 r)) waiting ++ [])
notify_message_arriving_lem_example = notify_message_arriving_lem 6 6 100 [] waiting

abbrev broker_b : BrokerData
broker_b = record { broker_name = "b"; broker_addrs = (0, "ip:1") ∷ [] }

pickup_topic_route_data-finds_example :
    (route : TopicRouteData) × (pickup_topic_route_data list_set "t" names_b_c ≡ some route)
    × (route.queue_datas ≡ two_queues)
    × Memᴰ broker_b route.broker_datas
pickup_topic_route_data-finds_example =
    pickup_topic_route_data-finds list_set "t" names_b_c two_queues (queue_of "b") broker_b refl
      (head refl) refl
