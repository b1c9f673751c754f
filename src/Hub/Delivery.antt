-- ===== src/Hub/Delivery.antt =====
-- Who gets an event, and who stays a client.
use relay_scheduler.Base.{
  ℕ, ◌+◌, ◌≡◌, refl, Bool, false, List, [], ◌∷◌, arith, if◌then◌else◌, nat_eq, ◌&&◌,
}
use relay_scheduler.Hub.{
  Message, is_client, unregister, broadcast, HubCall, hub_step, register, connects, disconnects,
  broadcasts,
}

-- How often a message went to a client.
abbrev pub deliveries : ℕ → List (ℕ × Message) → ℕ
deliveries c [] = 0
deliveries c ((k, m) ∷ rest) = (if nat_eq k c then 1 else 0) + deliveries c rest

abbrev pub Once : List ℕ → Type 0
Once [] = Unit {0}
Once (k ∷ ks) = (is_client k ks ≡ false) × Once ks

is_client-unregister :
    (c k : ℕ) (ks : List ℕ)
    → is_client k (unregister c ks) ≡ (if nat_eq c k then false else is_client k ks)
unfolding is_client unregister
is_client-unregister c k [] = ground arith
is_client-unregister c k (x ∷ ks) = ground (arith, is_client-unregister c k ks)

is_client-broadcast :
    (writes : ℕ → Bool) (m : Message) (k : ℕ) (ks : List ℕ)
    → is_client k (broadcast writes m ks).clients ≡ (is_client k ks && writes k)
unfolding is_client broadcast
is_client-broadcast writes m k [] = refl
is_client-broadcast writes m k (x ∷ ks) = ground (arith, is_client-broadcast writes m k ks)

unregister-Once : (c : ℕ) (ks : List ℕ) → Once ks → Once (unregister c ks)
unfolding unregister
unregister-Once c [] o = tt
unregister-Once c (x ∷ ks) o = ground (arith, is_client-unregister c x ks, unregister-Once c ks o.1)

broadcast-Once :
    (writes : ℕ → Bool) (m : Message) (ks : List ℕ) → Once ks → Once (broadcast writes m ks).clients
unfolding broadcast
broadcast-Once writes m [] o = tt
broadcast-Once writes m (x ∷ ks) o =
    ground (arith, is_client-broadcast writes m x ks, broadcast-Once writes m ks o.1)

register-Once : (c : ℕ) (ks : List ℕ) → Once ks → Once (register c ks)
unfolding register
register-Once c ks o = ground arith

hub_step-Once : (ks : List ℕ) (c : HubCall) → Once ks → Once (hub_step ks c)
unfolding hub_step
hub_step-Once ks (connects c) o = register-Once c ks o
hub_step-Once ks (disconnects c) o = unregister-Once c ks o
hub_step-Once ks (broadcasts writes m) o = broadcast-Once writes m ks o

unfoldable pub hub_run : List ℕ → List HubCall → List ℕ
hub_run ks [] = ks
hub_run ks (c ∷ cs) = hub_run (hub_step ks c) cs

pub hub_run-Once : (ks : List ℕ) (cs : List HubCall) → Once ks → Once (hub_run ks cs)
unfolding hub_run
hub_run-Once ks [] o = o
hub_run-Once ks (c ∷ cs) o = hub_run-Once (hub_step ks c) cs (hub_step-Once ks c o)
