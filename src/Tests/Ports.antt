-- ===== src/Tests/Ports.antt =====
-- The port manager from the zeroed storage on.
use shogun_os.PortManager.Reach.{Reached, boots, calls, requests, one_handle_per_port}
use shogun_os.Base.{ℕ, ◌≡◌, ◌≢◌, ◌⊎◌, refl, true, get_or, false, arith}
use shogun_os.PortManager.{
  Ports, free_handle, null, below, entry, static_ports, request_port, release_port, is_port_in_use,
}
use shogun_os.PortManager.Inv.{IsValid, IsReady-IsValid, static-IsValid, request_port-IsReady}
use shogun_os.PortManager.Contract.{Holds, Granted, Refused, request_port_lem}

-- With one port in use.
abbrev one_held : Ports
one_held = (request_port static_ports 0x70).1

one_held-IsValid : IsValid one_held
one_held-IsValid = IsReady-IsValid (request_port-IsReady {s = static_ports} 0x70 static-IsValid)

request_port_lem_example :
    ((is_port_in_use one_held 0x71 ≡ false) × Granted one_held 0x71 (request_port one_held 0x71))
    ⊎ Refused one_held 0x71 (request_port one_held 0x71)
request_port_lem_example = request_port_lem {s = one_held} 0x71 one_held-IsValid

one_held-Holds : Holds one_held (entry 0) 0x70
unfolding request_port shogun_os.PortManager.taken shogun_os.PortManager.first_free
one_held-Holds = (omega arith, refl, refl)

not_refused : (request_port one_held 0x71).0 ≢ null
unfolding request_port shogun_os.PortManager.taken shogun_os.PortManager.first_free
not_refused e = ground (arith, e)

-- Two ports were asked for.
abbrev two_ports : Ports
two_ports = (request_port (request_port static_ports 0x60).1 0x64).1

two_ports-Reached : Reached two_ports
two_ports-Reached = calls (calls boots (requests 0x60)) (requests 0x64)

both_in_use :
    ((get_or two_ports.registry 0 free_handle).in_use ≡ true)
    × ((get_or two_ports.registry 1 free_handle).in_use ≡ true)
unfolding request_port shogun_os.PortManager.taken shogun_os.PortManager.first_free
both_in_use = (refl, refl)

one_handle_per_port_example :
    IsValid two_ports
    × ((get_or two_ports.registry 0 free_handle).port
          ≡ (get_or two_ports.registry 1 free_handle).port
        → ◌≡◌ {A = ℕ} 0 1)
one_handle_per_port_example =
    one_handle_per_port 0 1 two_ports-Reached (omega arith) (omega arith) both_in_use.0
      both_in_use.1
