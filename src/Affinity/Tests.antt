-- ===== src/Affinity/Tests.antt =====
-- src/routing/prefix_affinity.rs: concrete histories of the index.
use rustygate.Prelude.{◌*◌, none, List, [], ◌∷◌}
use rustygate.Config.{default_prefix_affinity_config}
use rustygate.Lru.Model.{list_lru}
use rustygate.Affinity.{PrefixAffinityEntry, new, lookup}
use rustygate.Affinity.Laws.{Call, looks, remembers, run, latest, Answers, lookup-run}

abbrev history : List (Call (list_lru PrefixAffinityEntry))
history = remembers "aa" "east" 10 ∷ looks "bb" 20 ∷ remembers "aa" "west" 30 ∷ []

lookup-run_example :
    Answers
      (list_lru PrefixAffinityEntry)
      (300 * 1_000_000_000)
      40
      (latest (list_lru PrefixAffinityEntry) "aa" none history)
      (lookup
        (list_lru PrefixAffinityEntry)
        (run
          (list_lru PrefixAffinityEntry)
          (new (list_lru PrefixAffinityEntry) default_prefix_affinity_config)
          history)
        "aa"
        40).1
lookup-run_example =
    lookup-run (list_lru PrefixAffinityEntry) default_prefix_affinity_config history "aa" 40
