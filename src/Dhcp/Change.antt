-- ===== src/Dhcp/Change.antt =====
-- What the edits share: a failed search, a change of the copy alone, and the write to one subnet.
use ddi_agent.Base.{ℕ, Option, none, some, List}
use ddi_agent.Slice.{Shared, update_at}
use ddi_agent.Dhcp.Config.{Dhcp4Config, Dhcp6Config, Subnet4, Subnet6}
use ddi_agent.Dhcp.Proxy.{Error, Result, ok, err}

-- `if exists { … } else { return fmt.Errorf("no found …") }`
abbrev pub or_no_found : {A B : Type 0} → Option A → Error → (A → B) → Result B
or_no_found none e f = err e
or_no_found (some a) e f = ok (f a)

-- Only the copy is written.
abbrev pub copy_only : {C : Type 0} → C → C → Shared C
copy_only src dst = record { src = src; dst = dst }

-- Both views of a shared array see the write.
abbrev pub both : {C : Type 0} → C → Shared C
both conf = record { src = conf; dst = conf }

abbrev pub set_subnet4s : List Subnet4 → Dhcp4Config → Dhcp4Config
set_subnet4s subnets conf = record conf { dhcp4 = record conf.dhcp4 { subnet4s = subnets } }

abbrev pub set_subnet6s : List Subnet6 → Dhcp6Config → Dhcp6Config
set_subnet6s subnets conf = record conf { dhcp6 = record conf.dhcp6 { subnet6s = subnets } }

abbrev pub edit_subnet4 : ℕ → (Subnet4 → Subnet4) → Dhcp4Config → Dhcp4Config
edit_subnet4 i f conf = set_subnet4s (update_at i f conf.dhcp4.subnet4s) conf

abbrev pub edit_subnet6 : ℕ → (Subnet6 → Subnet6) → Dhcp6Config → Dhcp6Config
edit_subnet6 i f conf = set_subnet6s (update_at i f conf.dhcp6.subnet6s) conf

-- A loop that edits the first match, and goes on whether there is one or not.
abbrev pub edit_if_found : {C : Type 0} → Option ℕ → (ℕ → C → C) → C → C
edit_if_found none f conf = conf
edit_if_found (some i) f conf = f i conf

-- What an edit leaves of the copy, which is sent to Kea.
abbrev pub copy_of : {C : Type 0} → Result (Shared C) → Result C
copy_of (ok edited) = ok edited.dst
copy_of (err e) = err e
