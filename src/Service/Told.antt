-- ===== src/Service/Told.antt =====
-- What the calls of a listener (servus/listener.h) tell of the instances of a service.
use servus.Prelude.{
  ℕ, Bool, true, false, ◌&&◌, List, [], ◌∷◌, ◌++◌, Option, none, some, ◌≡◌, refl, sym, subst, ◌∙◌,
  ap, arith, ◌==◌, if◌then◌else◌,
}
use servus.Bytes.{Bytes}
use servus.Bytes.Order.{str_eq}
use servus.StdMap
use servus.StdMap.{StdMap, find-insert}
use servus.StdMap.Sorted.{IsSorted, insert-IsSorted, erase-IsSorted, find-erase}
use servus.Service.{Impl, member, set_data, add_listener, remove_listener}
use servus.Service.Laws.{listeners_change}
use servus.Service.Listener.{Event, instance_added, instance_removed, notify}

-- Whether a listener that has read its calls in order takes the instance to be there.
unfoldable pub heard : ℕ → Bytes → Bool → List Event → Bool
heard l n b [] = b
heard l n b (instance_added k i ∷ es) = heard l n (if l == k && str_eq n i then true else b) es
heard l n b (instance_removed k i ∷ es) = heard l n (if l == k && str_eq n i then false else b) es

abbrev pub is_there : Option (StdMap Bytes) → Bool
is_there none = false
is_there (some m) = true

unfoldable pub is_known : Impl → Bytes → Bool
is_known s n = is_there (StdMap.find n s.instance_map)

-- The listener is one of the service, and takes those instances to be there that the service knows.
pub record IsTold (l : ℕ) (s : Impl) (events : List Event) : Type 0 where
  pub listens : member l s.listeners ≡ true
  pub sorted : IsSorted s.instance_map
  pub told : (n : Bytes) → heard l n false events ≡ is_known s n

pub heard-append :
    (l : ℕ) (n : Bytes) (b : Bool) (es fs : List Event)
    → heard l n b (es ++ fs) ≡ heard l n (heard l n b es) fs
unfolding heard
heard-append l n b [] fs = refl
heard-append l n b (instance_added k i ∷ es) fs =
    heard-append l n (if l == k && str_eq n i then true else b) es fs
heard-append l n b (instance_removed k i ∷ es) fs =
    heard-append l n (if l == k && str_eq n i then false else b) es fs

pub heard-added :
    (l : ℕ) (n i : Bytes) (b : Bool) (ls : List ℕ)
    → heard l n b (notify instance_added ls i) ≡ (if member l ls && str_eq n i then true else b)
unfolding heard notify member
heard-added l n i b [] = refl
heard-added l n i b (k ∷ ls) =
    heard-added l n i (if l == k && str_eq n i then true else b) ls ∙ ground arith

pub heard-removed :
    (l : ℕ) (n i : Bytes) (b : Bool) (ls : List ℕ)
    → heard l n b (notify instance_removed ls i) ≡ (if member l ls && str_eq n i then false else b)
unfolding heard notify member
heard-removed l n i b [] = refl
heard-removed l n i b (k ∷ ls) =
    heard-removed l n i (if l == k && str_eq n i then false else b) ls ∙ ground arith

chosen :
    (b c : Bool) (o p : Option (StdMap Bytes))
    → is_there p ≡ c
    → (if b then c else is_there o) ≡ is_there (if b then p else o)
chosen true c o p e = sym e
chosen false c o p e = refl

module _ (l : ℕ) (s : Impl) (events : List Event) (h : IsTold l s events) where
  -- An instance is written, and the listeners hear of it.
  pub added-IsTold :
      (i : Bytes) (values : StdMap Bytes)
      → IsTold l
          (record s { instance_map = StdMap.insert i values s.instance_map })
          (events ++ notify instance_added s.listeners i)
  unfolding is_known
  added-IsTold i values = record {
    listens = h.listens;
    sorted = insert-IsSorted i values s.instance_map h.sorted;
    told = λ n.
        heard-append l n false events (notify instance_added s.listeners i)
        ∙ heard-added l n i (heard l n false events) s.listeners
        ∙ rw (h.listens, h.told n)
            (chosen (str_eq n i) true (StdMap.find n s.instance_map) (some values) refl
              ∙ ap is_there (sym (find-insert i n values s.instance_map)));
  }

  -- An instance is erased, and the listeners hear of it.
  pub removed-IsTold :
      (i : Bytes)
      → IsTold l
          (record s { instance_map = StdMap.erase i s.instance_map })
          (events ++ notify instance_removed s.listeners i)
  unfolding is_known
  removed-IsTold i = record {
    listens = h.listens;
    sorted = erase-IsSorted i s.instance_map h.sorted;
    told = λ n.
        heard-append l n false events (notify instance_removed s.listeners i)
        ∙ heard-removed l n i (heard l n false events) s.listeners
        ∙ rw (h.listens, h.told n)
            (chosen (str_eq n i) false (StdMap.find n s.instance_map) none refl
              ∙ ap is_there (sym (find-erase i n s.instance_map h.sorted)));
  }

  -- Another listener comes or goes.
  pub add_listener-IsTold : (k : ℕ) → IsTold l (add_listener s k) events
  unfolding is_known add_listener
  add_listener-IsTold k = record {
    listens = (listeners_change s k l).0 ∙ ground (arith, h.listens);
    sorted = subst IsSorted (ground arith) h.sorted;
    told = λ n. ground (arith, h.told n);
  }

  pub remove_listener-IsTold : (k : ℕ) → l == k ≡ false → IsTold l (remove_listener s k) events
  unfolding is_known remove_listener
  remove_listener-IsTold k other = record {
    listens = (listeners_change s k l).1 ∙ ground (arith, h.listens, other);
    sorted = subst IsSorted (ground arith) h.sorted;
    told = λ n. ground (arith, h.told n);
  }

-- A map that is cleared is told if it was empty.
pub cleared-IsTold :
    (l : ℕ) (s : Impl) (events : List Event)
    → s.instance_map ≡ []
    → IsTold l s events
    → IsTold l (record s { instance_map = [] }) events
unfolding is_known
cleared-IsTold l s events e h = record {
  listens = h.listens;
  sorted = tt;
  told = λ n. h.told n ∙ (rw e refl);
}

-- A listener is no longer told what the service knows when its map is cleared: it takes an instance
-- to be there that the service does not know.
pub cleared-stale :
    (l : ℕ) (s : Impl) (events : List Event) (n : Bytes)
    → IsTold l s events
    → is_known s n ≡ true
    → (heard l n false events ≡ true) × (is_known (record s { instance_map = [] }) n ≡ false)
unfolding is_known StdMap.find
cleared-stale l s events n h known = (h.told n ∙ known, refl)

-- The keys of the service have no part in it.
pub set_data-IsTold :
    (l : ℕ) (s : Impl) (events : List Event) (key value : Bytes)
    → IsTold l s events
    → IsTold l (set_data s key value) events
unfolding is_known set_data
set_data-IsTold l s events key value h = record {
  listens = h.listens;
  sorted = h.sorted;
  told = h.told;
}

listened_map : (s : Impl) (l : ℕ) → (add_listener s l).instance_map ≡ s.instance_map
unfolding add_listener
listened_map s l = ground arith

-- A listener that joins a service without instances, of which nothing has been called, is told.
pub joined-IsTold :
    (l : ℕ) (s : Impl) → l == 0 ≡ false → s.instance_map ≡ [] → IsTold l (add_listener s l) []
unfolding is_known heard StdMap.find
joined-IsTold l s some_l none_known = record {
  listens = (listeners_change s l l).0 ∙ ground (arith, some_l);
  sorted = subst IsSorted (sym none_known ∙ sym (listened_map s l)) tt;
  told = λ n. ap (λ m. is_there (StdMap.find n m)) (sym none_known ∙ sym (listened_map s l));
}
