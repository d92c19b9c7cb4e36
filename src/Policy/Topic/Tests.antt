-- ===== src/Policy/Topic/Tests.antt =====
-- The cases of admin-api/tests/test_policy.py on topics.
use mqtt_broker_stack.Common.{
  nat_eq, Text, All-of_any-false, List, ◌∷◌, some, Memᴰ, inl, ◌&&◌, not, codes, [], true, false,
  ◌≡◌, refl, ◌==◌, starts_with, ends_with, split_on, join,
}
use mqtt_broker_stack.Policy.Topic.{slash, newline, expand_levels, topic_matches}
use mqtt_broker_stack.Policy.Topic.Filter.{accepts, meets_empty, IsFilter}
use mqtt_broker_stack.Policy.Topic.Laws.{
  crosses_boundary, topic_matches-accepts, topic_matches_system, topic_matches_unnamed,
  topic_matches_wildcard_name,
}

wildcards_and_substitution :
    (topic_matches
        (codes "devices/%u/+")
        (codes "devices/sensor-1/temp")
        (codes "sensor-1")
        (codes "client-a")
        false
      ≡ true)
    × (topic_matches
          (codes "devices/%c/#")
          (codes "devices/client-a")
          (codes "sensor-1")
          (codes "client-a")
          false
        ≡ true)
    × (topic_matches
          (codes "devices/%c/#")
          (codes "devices/client-a/value")
          (codes "s")
          (codes "client-a")
          false
        ≡ true)
    × (topic_matches
          (codes "devices/%u/+")
          (codes "devices/other/temp")
          (codes "sensor-1")
          (codes "client-a")
          false
        ≡ false)
    × (topic_matches (codes "devices/+/state") (codes "devices/a/state") [] [] false ≡ true)
    × (topic_matches (codes "#") (codes "$SYS/broker/version") [] [] false ≡ false)
    × (topic_matches (codes "$SYS/#") (codes "$SYS/broker/version") [] [] false ≡ true)
unfolding topic_matches ◌==◌ starts_with ends_with split_on join
wildcards_and_substitution = (refl, refl, refl, refl, refl, refl, refl)

literal_subscription :
    (topic_matches (codes "devices/+") (codes "devices/+") (codes "user") (codes "id") true ≡ true)
    × (topic_matches (codes "devices/+") (codes "devices/a") (codes "user") (codes "id") true
        ≡ false)
unfolding topic_matches ◌==◌ starts_with ends_with split_on join
literal_subscription = (refl, refl)

-- MQTT lets "+" stand for an empty level, the code does not.
empty_level :
    (accepts (split_on slash (codes "a/+/b")) (split_on slash (codes "a//b")) ≡ true)
    × (topic_matches (codes "a/+/b") (codes "a//b") [] [] false ≡ false)
unfolding accepts topic_matches ◌==◌ starts_with ends_with split_on join
empty_level = (refl, refl)

abbrev user_levels : List Text
user_levels = codes "sensor" ∷ codes "+" ∷ []

expanded_user :
    expand_levels (codes "sensor") (codes "a") (split_on slash (codes "devices/%u/+"))
    ≡ some (codes "devices" ∷ user_levels)
unfolding expand_levels split_on ◌==◌
expanded_user = refl

devices_IsFilter : IsFilter (codes "devices" ∷ user_levels)
unfolding ◌==◌
devices_IsFilter = (refl, (refl, tt))

topic_matches-accepts_example :
    topic_matches
      (codes "devices/%u/+")
      (codes "devices/sensor/t")
      (codes "sensor")
      (codes "a")
      false
    ≡ (not (
          crosses_boundary
            (join (codes "/") (codes "devices" ∷ user_levels))
            (codes "devices/sensor/t"))
        && (accepts (codes "devices" ∷ user_levels) (split_on slash (codes "devices/sensor/t"))
            && not (
                meets_empty
                  (codes "devices" ∷ user_levels)
                  (split_on slash (codes "devices/sensor/t")))))
topic_matches-accepts_example =
    topic_matches-accepts (codes "devices/%u/+") (codes "devices/sensor/t") (codes "sensor")
      (codes "a") (codes "devices") user_levels
      (All-of_any-false (λ c. nat_eq c slash) (codes "sensor") refl)
      (All-of_any-false (λ c. nat_eq c slash) (codes "a") refl)
      (All-of_any-false (λ c. nat_eq c newline) (codes "devices/sensor/t") refl) expanded_user
      devices_IsFilter

topic_matches_system_example :
    (ls : List Text) × (expand_levels [] [] (split_on slash (codes "$SYS/#")) ≡ some ls)
    × (starts_with (join (codes "/") ls) (codes "$") ≡ true)
topic_matches_system_example =
    topic_matches_system (codes "$SYS/#") (codes "$SYS/broker/version") [] [] false
      (unfold starts_with in refl) wildcards_and_substitution.6

topic_matches_unnamed_example : topic_matches (codes "%u") (codes "x") [] (codes "id") true ≡ false
topic_matches_unnamed_example =
    topic_matches_unnamed (codes "%u") (codes "x") [] (codes "id") true
      (inl (unfold split_on in Memᴰ.head refl, refl))

topic_matches_wildcard_name_example :
    topic_matches (codes "%u") (codes "secret/key") (codes "#") (codes "id") false ≡ true
topic_matches_wildcard_name_example =
    topic_matches_wildcard_name (codes "secret/key") (codes "id")
      (All-of_any-false (λ c. nat_eq c newline) (codes "secret/key") refl)
      (unfold starts_with in refl)
