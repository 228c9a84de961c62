-- ===== src/KeepAlive/Tests.antt =====
-- A slave in a few intervals, and a stop while its subscriber sleeps.
use ddsproxy.Common.{
  ◌≡◌, refl, true, false, none, some, List, [], ◌∷◌, nat_beq, any, arith, string_key,
}
use ddsproxy.KeepAlive.{
  KeepAlive, ended, Event, proceeds, sample_arrives, stop, parse_role, start_keep_alive,
  is_publishing, has_subscriber, happen, happen_all, decide, proceed,
}
use ddsproxy.KeepAlive.Takeover.{intervals, IsSlave, takes_over_iff}
use ddsproxy.KeepAlive.Roles.{keep_alive_roles, alive_topic_ends}

master_arguments :
    parse_role ("master" ∷ "-c" ∷ "proxy.yaml" ∷ []) ≡ some (true, none, "-c" ∷ "proxy.yaml" ∷ [])
unfolding parse_role
master_arguments = refl

slave_arguments : parse_role ("slave" ∷ "200" ∷ []) ≡ some (false, some "200", [])
unfolding parse_role
slave_arguments = refl

abbrev slave : KeepAlive
slave = happen (proceeds true) (start_keep_alive false)

slave-IsSlave : IsSlave slave
unfolding happen proceed decide start_keep_alive
slave-IsSlave = (refl, refl, refl, refl)

takes_over_iff_example :
    (intervals (2 ∷ 1 ∷ 0 ∷ 3 ∷ []) slave).master_flag ≡ any (λ n. nat_beq n 0) (2 ∷ 1 ∷ 0 ∷ 3 ∷ [])
takes_over_iff_example = takes_over_iff (2 ∷ 1 ∷ 0 ∷ 3 ∷ []) slave slave-IsSlave

-- No heartbeat comes while the subscriber sleeps, and the slave starts to publish.
abbrev taking_over : List Event
taking_over = proceeds true ∷ proceeds true ∷ proceeds true ∷ proceeds true ∷ []

abbrev later_events : List Event
later_events = proceeds true ∷ sample_arrives true true ∷ stop ∷ proceeds true ∷ []

keep_alive_roles_example :
    let k = happen_all taking_over (start_keep_alive false) in
    (is_publishing k.phase ≡ true → k.master_flag ≡ true)
    × (has_subscriber k.phase ≡ true → k.master_flag ≡ false)
    × (k.master_flag ≡ false → k.written ≡ 0)
    × (k.master_flag ≡ true → (happen_all later_events k).master_flag ≡ true)
keep_alive_roles_example = keep_alive_roles false taking_over later_events

abbrev ending : List Event
ending = proceeds true ∷ sample_arrives true true ∷ proceeds true ∷ proceeds false ∷ []

alive_topic_ends_example :
    (happen_all ending (happen stop (happen (proceeds true) slave))).phase ≡ ended
alive_topic_ends_example = alive_topic_ends (happen (proceeds true) slave) ending (omega arith)
