-- ===== src/Dhcp/Sharing.antt =====
-- What an edit of pkg/dhcp/grpcservice/dhcphandler.go writes to: its copy alone, or an array that
-- the copy shares with the configuration that the handler keeps.
use ddi_agent.Base.{◌≡◌, refl, Option, arith}
use ddi_agent.Slice.{Shared}
use ddi_agent.Dhcp.Proxy.{Error, Result, ok, err}
use ddi_agent.Dhcp.Change.{or_no_found, copy_only, both, copy_of}
use ddi_agent.Dhcp.Config.{Dhcp4Config}
use ddi_agent.Dhcp.Request.{Pool4Request}
use ddi_agent.Dhcp.Service.{Method, Payload}
use ddi_agent.Dhcp.Failure.{IsCopyOnly4, IsCopyOnly6}
use ddi_agent.Dhcp.Edit.Subnets
use ddi_agent.Dhcp.Edit.Pools
use ddi_agent.Dhcp.Edit.Reservations
use ddi_agent.Dhcp.Edit.Classes

module _ {A C : Type 0} (conf : C) (o : Option A) (e : Error) where
  or_no_found-copy_only :
      (k : A → C) (edited : Shared C)
      → or_no_found o e (λ a. copy_only conf (k a)) ≡ ok edited
      → edited.src ≡ conf
  or_no_found-copy_only k edited h = ground arith

copy_only-src :
    {C : Type 0} (conf conf' : C) (edited : Shared C)
    → ok (copy_only conf conf') ≡ ok edited
    → edited.src ≡ conf
copy_only-src conf conf' edited h = ground arith

-- A write through the copy shows in both.
pub or_no_found-both :
    {A C : Type 0} (o : Option A) (e : Error) (k : A → C) (edited : Shared C)
    → or_no_found o e (λ a. both (k a)) ≡ ok edited
    → edited.src ≡ edited.dst
or_no_found-both o e k edited h = ground arith

pub create_subnet4-IsCopyOnly4 :
    (req : Payload Method.create_subnet4) → IsCopyOnly4 (Subnets.create_subnet4 req)
unfolding Subnets.create_subnet4
create_subnet4-IsCopyOnly4 req conf edited = copy_only-src conf _ edited

pub update_subnet4-IsCopyOnly4 :
    (req : Payload Method.update_subnet4) → IsCopyOnly4 (Subnets.update_subnet4 req)
unfolding Subnets.update_subnet4
update_subnet4-IsCopyOnly4 req conf edited = or_no_found-copy_only conf _ _ _ edited

pub delete_subnet4-IsCopyOnly4 :
    (req : Payload Method.delete_subnet4) → IsCopyOnly4 (Subnets.delete_subnet4 req)
unfolding Subnets.delete_subnet4
delete_subnet4-IsCopyOnly4 req conf edited = or_no_found-copy_only conf _ _ _ edited

pub create_pool4-IsCopyOnly4 :
    (req : Payload Method.create_pool4) → IsCopyOnly4 (Pools.create_pool4 req)
unfolding Pools.create_pool4
create_pool4-IsCopyOnly4 req conf edited = copy_only-src conf _ edited

pub create_reservation4-IsCopyOnly4 :
    (req : Payload Method.create_reservation4) → IsCopyOnly4 (Reservations.create_reservation4 req)
unfolding Reservations.create_reservation4
create_reservation4-IsCopyOnly4 req conf edited = copy_only-src conf _ edited

pub create_client_class4-IsCopyOnly4 :
    (req : Payload Method.create_clientclass4) → IsCopyOnly4 (Classes.create_client_class4 req)
unfolding Classes.create_client_class4
create_client_class4-IsCopyOnly4 req conf edited = copy_only-src conf _ edited

pub update_client_class4-IsCopyOnly4 :
    (req : Payload Method.update_clientclass4) → IsCopyOnly4 (Classes.update_client_class4 req)
unfolding Classes.update_client_class4
update_client_class4-IsCopyOnly4 req conf edited = or_no_found-copy_only conf _ _ _ edited

pub delete_client_class4-IsCopyOnly4 :
    (req : Payload Method.delete_clientclass4) → IsCopyOnly4 (Classes.delete_client_class4 req)
unfolding Classes.delete_client_class4
delete_client_class4-IsCopyOnly4 req conf edited = or_no_found-copy_only conf _ _ _ edited

pub create_subnet6-IsCopyOnly6 :
    (req : Payload Method.create_subnet6) → IsCopyOnly6 (Subnets.create_subnet6 req)
unfolding Subnets.create_subnet6
create_subnet6-IsCopyOnly6 req conf edited = copy_only-src conf _ edited

pub update_subnet6-IsCopyOnly6 :
    (req : Payload Method.update_subnet6) → IsCopyOnly6 (Subnets.update_subnet6 req)
unfolding Subnets.update_subnet6
update_subnet6-IsCopyOnly6 req conf edited = or_no_found-copy_only conf _ _ _ edited

pub delete_subnet6-IsCopyOnly6 :
    (req : Payload Method.delete_subnet6) → IsCopyOnly6 (Subnets.delete_subnet6 req)
unfolding Subnets.delete_subnet6
delete_subnet6-IsCopyOnly6 req conf edited = or_no_found-copy_only conf _ _ _ edited

pub create_pool6-IsCopyOnly6 :
    (req : Payload Method.create_pool6) → IsCopyOnly6 (Pools.create_pool6 req)
unfolding Pools.create_pool6
create_pool6-IsCopyOnly6 req conf edited = copy_only-src conf _ edited

pub create_pd_pool-IsCopyOnly6 :
    (req : Payload Method.create_pdpool) → IsCopyOnly6 (Pools.create_pd_pool req)
unfolding Pools.create_pd_pool
create_pd_pool-IsCopyOnly6 req conf edited = copy_only-src conf _ edited

pub create_reservation6-IsCopyOnly6 :
    (req : Payload Method.create_reservation6) → IsCopyOnly6 (Reservations.create_reservation6 req)
unfolding Reservations.create_reservation6
create_reservation6-IsCopyOnly6 req conf edited = copy_only-src conf _ edited

pub update_pool4-both :
    (req : Pool4Request) (conf : Dhcp4Config) (edited : Shared Dhcp4Config)
    → Pools.update_pool4 req conf ≡ ok edited
    → edited.src ≡ edited.dst
unfolding Pools.update_pool4
update_pool4-both req conf edited = or_no_found-both _ _ _ edited

pub copy_of-ok :
    {C : Type 0} (r : Result (Shared C)) {c : C}
    → copy_of r ≡ ok c
    → (edited : Shared C) × (r ≡ ok edited) × (edited.dst ≡ c)
copy_of-ok (ok edited) h = (edited, refl, ground arith)
copy_of-ok (err e) h = cc
