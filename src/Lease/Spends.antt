-- ===== src/Lease/Spends.antt =====
-- How much a step of the lease controller sends and sleeps.
use native_kubelet.Base.{
  ℕ, ◌+◌, ◌≤◌, ◌≡◌, ◌≢◌, refl, sym, ap, ◌∙◌, length, length-append, All, length-append, All-append,
  append_assoc, append-nil, arith, Option, some, List, [], ◌∷◌, ◌++◌,
}
use native_kubelet.Lease.{Lease, LeaseController, max_backoff}

-- The lease has an owner and says when it was renewed.
abbrev pub IsRenewed : Lease → Type 0
IsRenewed lease = (lease.owner_references ≢ []) × ((t : ℕ) × (lease.renew_time ≡ some t))

abbrev pub IsDelay : ℕ → Type 0
IsDelay d = (200 ≤ d) × (d ≤ max_backoff)

-- The second list is the first one and further entries, all of a kind.
abbrev pub Adds : {A : Type 0} → (A → Type 0) → List A → List A → Type 0
Adds {A = A} P xs ys = (new : List A) × (ys ≡ xs ++ new) × All P new

-- The step from one state to the other sends at most `n` updates, every lease sent is renewed, and
-- every sleep is a delay of the backoff.
pub record Spends {W : Type 0} (n : ℕ) (c d : LeaseController W) : Type 0 where
  pub count : length d.sent_updates ≤ length c.sent_updates + n
  pub updates : Adds IsRenewed c.sent_updates d.sent_updates
  pub creates : Adds IsRenewed c.sent_creates d.sent_creates
  pub sleeps : Adds IsDelay c.slept d.slept

module _ {A : Type 0} (P : A → Type 0) where
  pub Adds-same : (xs : List A) → Adds P xs xs
  Adds-same xs = ([], sym (append-nil xs), tt)

  pub Adds-one : (xs : List A) (x : A) → P x → Adds P xs (xs ++ x ∷ [])
  Adds-one xs x p = (x ∷ [], refl, (p, tt))

  pub Adds-trans : (xs ys zs : List A) → Adds P xs ys → Adds P ys zs → Adds P xs zs
  Adds-trans xs ys zs (a, p, ha) (b, q, hb) =
      (a ++ b, q ∙ ap (λ t. t ++ b) p ∙ append_assoc xs a b, All-append P a b ha hb)

module _ {W : Type 0} where
  pub Spends-trans :
      {n m : ℕ} (c d e : LeaseController W) → Spends n c d → Spends m d e → Spends (n + m) c e
  Spends-trans c d e s t = record {
    count = omega (arith, s.count, t.count);
    updates = Adds-trans IsRenewed _ _ _ s.updates t.updates;
    creates = Adds-trans IsRenewed _ _ _ s.creates t.creates;
    sleeps = Adds-trans IsDelay _ _ _ s.sleeps t.sleeps;
  }

  pub Spends-more : {n m : ℕ} (c d : LeaseController W) → n ≤ m → Spends n c d → Spends m c d
  Spends-more c d h s = record {
    count = omega (arith, s.count);
    updates = s.updates;
    creates = s.creates;
    sleeps = s.sleeps;
  }

  -- Nothing is sent, and there is no sleep: the rest of the state may change.
  pub Spends-other :
      (c : LeaseController W) (w : W) (l : Option Lease)
      → Spends 0 c (record c { world = w; latest_lease = l })
  Spends-other c w l = record {
    count = omega arith;
    updates = Adds-same IsRenewed _;
    creates = Adds-same IsRenewed _;
    sleeps = Adds-same IsDelay _;
  }

  pub slept-Spends :
      (c : LeaseController W) (w : W) (n : ℕ)
      → IsDelay n
      → Spends 0 c (record c { world = w; slept = c.slept ++ n ∷ [] })
  slept-Spends c w n h = record {
    count = omega arith;
    updates = Adds-same IsRenewed _;
    creates = Adds-same IsRenewed _;
    sleeps = Adds-one IsDelay _ n h;
  }

  pub sent-Spends :
      (c : LeaseController W) (lease : Lease)
      → IsRenewed lease
      → Spends 1 c (record c { sent_updates = c.sent_updates ++ lease ∷ [] })
  sent-Spends c lease h = record {
    count = omega (arith, length-append c.sent_updates (lease ∷ []));
    updates = Adds-one IsRenewed _ lease h;
    creates = Adds-same IsRenewed _;
    sleeps = Adds-same IsDelay _;
  }
