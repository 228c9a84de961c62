-- ===== src/Rpc/RpcBridge/Tasks/Tests.antt =====
-- A reader of a service with one sample.
use ddsproxy.Common.{◌+◌, ◌≤◌, ◌≡◌, ◌≢◌, refl, true, ◌||◌}
use ddsproxy.Rpc.RpcBridge.Tasks.{
  Service, new_service, resting, data_available, woken, should_go_on, arrives, starts, goes_on,
  enables, wakes, Served, start, later, service_served,
}

-- A thread is about to take the only sample of a reader.
abbrev taking_service : Service
taking_service = record (new_service true) {
  enabled = true;
  queued = true;
  reader_enabled = true;
  unread = 1;
  heard = true;
  taking = 1;
}

taking_served : Served true taking_service
unfolding data_available woken should_go_on
taking_served =
    let heard = later (later (later start (enables refl refl)) (wakes refl)) (arrives refl) in
    later (later heard (starts refl)) (goes_on refl refl)

service_served_example :
    (taking_service.tasks + (taking_service.testing + taking_service.taking) ≤ 1)
    × (taking_service.taking ≢ 0 → taking_service.unread ≢ 0)
    × (taking_service.enabled ≡ true
        → taking_service.switch ≡ resting
        → (taking_service.reliable || taking_service.heard) ≡ true
        → taking_service.unread ≢ 0
        → taking_service.tasks + (taking_service.testing + taking_service.taking) ≡ 1)
service_served_example = service_served taking_served
