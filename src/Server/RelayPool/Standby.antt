-- ===== src/Server/RelayPool/Standby.antt =====
-- The preferred member of a `RelayPool` of pkg/server/relaypool.go through its life.
use ntwire.Base.{
  ℕ, zero, suc, String, ◌≡◌, refl, subst, Bool, true, false, not, ◌&&◌, Option, none, some, List,
  [], ◌∷◌, arith, set, ◌==◌, if◌then◌else◌, is_text,
}
use ntwire.Base.{is_text}
use ntwire.Server.RelayPool.{
  Member, Response, Pool, Publication, member_at, new_relay_pool, new_members, choose_preferred,
  healthy, unregistered, native_set, noted, is_changed, is_accepted, same_set, record_member,
  update_first, update_second, close,
}
use ntwire.Server.RelayPool.Preferred.{IsRegistered, IsResult, choose_preferred-Registered}
use ntwire.Server.RelayPool.World.{
  start, call, updates, publishes, closes, closes, publishes, updates, call, World, Step, Reach,
}

-- The preferred member is registered, and where there is none no member is.
abbrev pub IsPreferred : Pool → Type 0
IsPreferred p =
    ((i : ℕ) → p.preferred ≡ some i → IsRegistered p.members i)
    × (p.preferred ≡ none → healthy p.members ≡ false)

pub noted-IsPreferred :
    (changed set_changed : Bool) (members : List Member) (preferred : Option ℕ) (domain : String)
    (p : Pool)
    → ((i : ℕ) → preferred ≡ some i → IsRegistered members i)
    → (preferred ≡ none → healthy members ≡ false)
    → IsPreferred (noted changed set_changed members preferred domain p).0
unfolding noted
noted-IsPreferred changed set_changed members preferred domain p valid empty = (valid, empty)

pub update_first-IsPreferred :
    (stats : ℕ → ℕ × ℕ) (i : ℕ) (registered : Bool) (response : Response) (p : Pool)
    → IsPreferred p
    → IsPreferred (update_first stats i registered response p).0
unfolding update_first record_member
update_first-IsPreferred stats i registered response p h = closed_step p.closed
  where
    ok : Bool
    ok = is_accepted registered response p

    next : List Member
    next = set p.members i (record { registered = ok; response = response })

    recorded : (old : Member) → IsPreferred (record_member stats i old ok response p).0
    recorded old =
        let (found, empty, kept) = choose_preferred-Registered stats next p.preferred in
        noted-IsPreferred
          (is_changed i old ok response p.preferred (choose_preferred stats next p.preferred))
          (not (same_set (native_set p.members) (native_set next))) next
          (choose_preferred stats next p.preferred)
          (if ok && not (is_text response.domain "") && is_text p.pool_domain ""
            then response.domain
            else p.pool_domain)
          p (λ j e. subst (IsResult next) e found) empty

    member_step :
        (o : Option Member)
        → let r : Pool × Option Publication = elim o [
          | none ↦ (p, none)
          | some old ↦ record_member stats i old ok response p
        ] in
          IsPreferred r.0
    member_step none = h
    member_step (some old) = recorded old

    closed_step :
        (b : Bool)
        → let r : Pool × Option Publication =
            if b then (p, none) else elim (member_at p.members i) [
              | none ↦ (p, none)
              | some old ↦ record_member stats i old ok response p
            ] in
          IsPreferred r.0
    closed_step true = h
    closed_step false = member_step (member_at p.members i)

pub unregistered-healthy : (ms : List Member) → healthy (unregistered ms) ≡ false
unfolding healthy unregistered
unregistered-healthy [] = refl
unregistered-healthy (m ∷ ms) = unregistered-healthy ms

pub new_members-healthy : (n : ℕ) → healthy (new_members n) ≡ false
unfolding healthy new_members
new_members-healthy zero = refl
new_members-healthy (suc n) = new_members-healthy n

-- A property of a state that both branches of a step end in.
pub if_first :
    {A B C : Type 0} (P : A → Type 0) (b : Bool) (x y : A × B × C)
    → P x.0
    → P y.0
    → P (if b then x else y).0
if_first P true x y p q = p
if_first P false x y p q = q

pub update_second-IsPreferred :
    (t : Publication) (p : Pool) → IsPreferred p → IsPreferred (update_second t p).0
unfolding update_second
update_second-IsPreferred t p h =
    if_first IsPreferred (not p.closed && p.revision == t.at_revision) _ _ h h

pub close-IsPreferred : (p : Pool) → IsPreferred p → IsPreferred (close p).0
unfolding close
close-IsPreferred p h =
    if_first IsPreferred p.closed _ _ h
      (λ i e. absurd (grind (arith, e)), λ e. unregistered-healthy p.members)

-- After any sections of updates and closes, the preferred member is a registered one, and there is one
-- as long as any member is registered.
pub preferred-IsRegistered :
    (n : ℕ) (w : World)
    → Reach n w
    → ((i : ℕ) → w.pool.preferred ≡ some i → IsRegistered w.pool.members i)
      × (w.pool.preferred ≡ none → healthy w.pool.members ≡ false)
unfolding new_relay_pool
preferred-IsRegistered n _ start = (λ i e. absurd (grind (arith, e)), λ e. new_members-healthy n)
preferred-IsRegistered n w (call v _ r step) = go step (preferred-IsRegistered n v r)
  where
    go : {u : World} → Step v u → IsPreferred v.pool → IsPreferred u.pool
    go (updates stats i registered response _) h =
        update_first-IsPreferred stats i registered response v.pool h
    go (publishes front t back _ e) h = update_second-IsPreferred t v.pool h
    go (closes _) h = close-IsPreferred v.pool h
