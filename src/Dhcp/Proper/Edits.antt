-- ===== src/Dhcp/Proper/Edits.antt =====
-- No edit of pkg/dhcp/grpcservice/dhcphandler.go changes the file of a configuration.
use mathlib.Core.Path.{subst}
use ddi_agent.Base.{ℕ, ◌≡◌, refl, Option, none, some}
use ddi_agent.Slice.{Shared, index_of}
use ddi_agent.Dhcp.Config.{Dhcp4Config, Dhcp6Config, Subnet4, Subnet6}
use ddi_agent.Dhcp.Proxy.{Error, ok}
use ddi_agent.Dhcp.Change.{or_no_found, copy_only, edit_if_found, edit_subnet4, edit_subnet6}
use ddi_agent.Dhcp.Service.{Method, Payload}
use ddi_agent.Dhcp.Edit.Subnets
use ddi_agent.Dhcp.Edit.Pools
use ddi_agent.Dhcp.Edit.Reservations
use ddi_agent.Dhcp.Edit.Classes
use ddi_agent.Dhcp.Proper.Actions.{KeepsPath4, KeepsPath6}

ok_inj : {A : Type 0} {a b : A} → ok a ≡ ok b → a ≡ b
ok_inj h = cc

-- What holds of every edit that is made holds of the one that was made.
or_no_found-all :
    {A C : Type 0} (P : Shared C → Type 0) (o : Option A) (e : Error) (k : A → Shared C)
    → ((a : A) → P (k a))
    → (edited : Shared C) → or_no_found o e k ≡ ok edited
    → P edited
or_no_found-all P none e k all edited h = cc
or_no_found-all P (some a) e k all edited h = subst P (ok_inj h) (all a)

ok-all :
    {C : Type 0} (P : Shared C → Type 0) (made : Shared C)
    → P made
    → (edited : Shared C) → ok made ≡ ok edited
    → P edited
ok-all P made p edited h = subst P (ok_inj h) p

-- A configuration with a file of its own.
abbrev Paths4 : Dhcp4Config → Shared Dhcp4Config → Type 0
Paths4 conf edited = (edited.src.path ≡ conf.path) × (edited.dst.path ≡ conf.path)

edit_if_found-path4 :
    (o : Option ℕ) (f : Subnet4 → Subnet4) (conf : Dhcp4Config)
    → (edit_if_found o (λ i. edit_subnet4 i f) conf).path ≡ conf.path
edit_if_found-path4 none f conf = refl
edit_if_found-path4 (some i) f conf = refl

created-path4 :
    (o : Option ℕ) (f : Subnet4 → Subnet4) (conf : Dhcp4Config) (edited : Shared Dhcp4Config)
    → ok (copy_only conf (edit_if_found o (λ i. edit_subnet4 i f) conf)) ≡ ok edited
    → Paths4 conf edited
created-path4 o f conf = ok-all (Paths4 conf) _ (refl, edit_if_found-path4 o f conf)

-- A configuration with a file of its own.
abbrev Paths6 : Dhcp6Config → Shared Dhcp6Config → Type 0
Paths6 conf edited = (edited.src.path ≡ conf.path) × (edited.dst.path ≡ conf.path)

edit_if_found-path6 :
    (o : Option ℕ) (f : Subnet6 → Subnet6) (conf : Dhcp6Config)
    → (edit_if_found o (λ i. edit_subnet6 i f) conf).path ≡ conf.path
edit_if_found-path6 none f conf = refl
edit_if_found-path6 (some i) f conf = refl

created-path6 :
    (o : Option ℕ) (f : Subnet6 → Subnet6) (conf : Dhcp6Config) (edited : Shared Dhcp6Config)
    → ok (copy_only conf (edit_if_found o (λ i. edit_subnet6 i f) conf)) ≡ ok edited
    → Paths6 conf edited
created-path6 o f conf = ok-all (Paths6 conf) _ (refl, edit_if_found-path6 o f conf)

pub create_subnet4-KeepsPath4 :
    (req : Payload Method.create_subnet4) → KeepsPath4 (Subnets.create_subnet4 req)
unfolding Subnets.create_subnet4
create_subnet4-KeepsPath4 req conf = ok-all (Paths4 conf) _ (refl, refl)

pub update_subnet4-KeepsPath4 :
    (req : Payload Method.update_subnet4) → KeepsPath4 (Subnets.update_subnet4 req)
unfolding Subnets.update_subnet4
update_subnet4-KeepsPath4 req conf = or_no_found-all (Paths4 conf) _ _ _ λ _. (refl, refl)

pub delete_subnet4-KeepsPath4 :
    (req : Payload Method.delete_subnet4) → KeepsPath4 (Subnets.delete_subnet4 req)
unfolding Subnets.delete_subnet4
delete_subnet4-KeepsPath4 req conf = or_no_found-all (Paths4 conf) _ _ _ λ _. (refl, refl)

pub create_subnet6-KeepsPath6 :
    (req : Payload Method.create_subnet6) → KeepsPath6 (Subnets.create_subnet6 req)
unfolding Subnets.create_subnet6
create_subnet6-KeepsPath6 req conf = ok-all (Paths6 conf) _ (refl, refl)

pub update_subnet6-KeepsPath6 :
    (req : Payload Method.update_subnet6) → KeepsPath6 (Subnets.update_subnet6 req)
unfolding Subnets.update_subnet6
update_subnet6-KeepsPath6 req conf = or_no_found-all (Paths6 conf) _ _ _ λ _. (refl, refl)

pub delete_subnet6-KeepsPath6 :
    (req : Payload Method.delete_subnet6) → KeepsPath6 (Subnets.delete_subnet6 req)
unfolding Subnets.delete_subnet6
delete_subnet6-KeepsPath6 req conf = or_no_found-all (Paths6 conf) _ _ _ λ _. (refl, refl)

pub create_pool4-KeepsPath4 :
    (req : Payload Method.create_pool4) → KeepsPath4 (Pools.create_pool4 req)
unfolding Pools.create_pool4
create_pool4-KeepsPath4 req conf =
    created-path4 (index_of (Subnets.has_id4 req.subnet_id) conf.dhcp4.subnet4s) _ conf

pub update_pool4-KeepsPath4 :
    (req : Payload Method.update_pool4) → KeepsPath4 (Pools.update_pool4 req)
unfolding Pools.update_pool4
update_pool4-KeepsPath4 req conf = or_no_found-all (Paths4 conf) _ _ _ λ _. (refl, refl)

pub delete_pool4-KeepsPath4 :
    (req : Payload Method.delete_pool4) → KeepsPath4 (Pools.delete_pool4 req)
unfolding Pools.delete_pool4
delete_pool4-KeepsPath4 req conf = or_no_found-all (Paths4 conf) _ _ _ λ _. (refl, refl)

pub create_pool6-KeepsPath6 :
    (req : Payload Method.create_pool6) → KeepsPath6 (Pools.create_pool6 req)
unfolding Pools.create_pool6
create_pool6-KeepsPath6 req conf =
    created-path6 (index_of (Subnets.has_id6 req.subnet_id) conf.dhcp6.subnet6s) _ conf

pub update_pool6-KeepsPath6 :
    (req : Payload Method.update_pool6) → KeepsPath6 (Pools.update_pool6 req)
unfolding Pools.update_pool6
update_pool6-KeepsPath6 req conf = or_no_found-all (Paths6 conf) _ _ _ λ _. (refl, refl)

pub delete_pool6-KeepsPath6 :
    (req : Payload Method.delete_pool6) → KeepsPath6 (Pools.delete_pool6 req)
unfolding Pools.delete_pool6
delete_pool6-KeepsPath6 req conf = or_no_found-all (Paths6 conf) _ _ _ λ _. (refl, refl)

pub create_pd_pool-KeepsPath6 :
    (req : Payload Method.create_pdpool) → KeepsPath6 (Pools.create_pd_pool req)
unfolding Pools.create_pd_pool
create_pd_pool-KeepsPath6 req conf =
    created-path6 (index_of (Subnets.has_id6 req.subnet_id) conf.dhcp6.subnet6s) _ conf

pub update_pd_pool-KeepsPath6 :
    (req : Payload Method.update_pdpool) → KeepsPath6 (Pools.update_pd_pool req)
unfolding Pools.update_pd_pool
update_pd_pool-KeepsPath6 req conf = or_no_found-all (Paths6 conf) _ _ _ λ _. (refl, refl)

pub delete_pd_pool-KeepsPath6 :
    (req : Payload Method.delete_pdpool) → KeepsPath6 (Pools.delete_pd_pool req)
unfolding Pools.delete_pd_pool
delete_pd_pool-KeepsPath6 req conf = or_no_found-all (Paths6 conf) _ _ _ λ _. (refl, refl)

pub create_reservation4-KeepsPath4 :
    (req : Payload Method.create_reservation4) → KeepsPath4 (Reservations.create_reservation4 req)
unfolding Reservations.create_reservation4
create_reservation4-KeepsPath4 req conf =
    created-path4 (index_of (Subnets.has_id4 req.subnet_id) conf.dhcp4.subnet4s) _ conf

pub update_reservation4-KeepsPath4 :
    (req : Payload Method.update_reservation4) → KeepsPath4 (Reservations.update_reservation4 req)
unfolding Reservations.update_reservation4
update_reservation4-KeepsPath4 req conf = or_no_found-all (Paths4 conf) _ _ _ λ _. (refl, refl)

pub delete_reservation4-KeepsPath4 :
    (req : Payload Method.delete_reservation4) → KeepsPath4 (Reservations.delete_reservation4 req)
unfolding Reservations.delete_reservation4
delete_reservation4-KeepsPath4 req conf = or_no_found-all (Paths4 conf) _ _ _ λ _. (refl, refl)

pub create_reservation6-KeepsPath6 :
    (req : Payload Method.create_reservation6) → KeepsPath6 (Reservations.create_reservation6 req)
unfolding Reservations.create_reservation6
create_reservation6-KeepsPath6 req conf =
    created-path6 (index_of (Subnets.has_id6 req.subnet_id) conf.dhcp6.subnet6s) _ conf

pub update_reservation6-KeepsPath6 :
    (req : Payload Method.update_reservation6) → KeepsPath6 (Reservations.update_reservation6 req)
unfolding Reservations.update_reservation6
update_reservation6-KeepsPath6 req conf = or_no_found-all (Paths6 conf) _ _ _ λ _. (refl, refl)

pub delete_reservation6-KeepsPath6 :
    (req : Payload Method.delete_reservation6) → KeepsPath6 (Reservations.delete_reservation6 req)
unfolding Reservations.delete_reservation6
delete_reservation6-KeepsPath6 req conf = or_no_found-all (Paths6 conf) _ _ _ λ _. (refl, refl)

pub create_client_class4-KeepsPath4 :
    (req : Payload Method.create_clientclass4) → KeepsPath4 (Classes.create_client_class4 req)
unfolding Classes.create_client_class4
create_client_class4-KeepsPath4 req conf = ok-all (Paths4 conf) _ (refl, refl)

pub update_client_class4-KeepsPath4 :
    (req : Payload Method.update_clientclass4) → KeepsPath4 (Classes.update_client_class4 req)
unfolding Classes.update_client_class4
update_client_class4-KeepsPath4 req conf = or_no_found-all (Paths4 conf) _ _ _ λ _. (refl, refl)

pub delete_client_class4-KeepsPath4 :
    (req : Payload Method.delete_clientclass4) → KeepsPath4 (Classes.delete_client_class4 req)
unfolding Classes.delete_client_class4
delete_client_class4-KeepsPath4 req conf = or_no_found-all (Paths4 conf) _ _ _ λ _. (refl, refl)
