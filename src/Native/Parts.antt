-- ===== src/Native/Parts.antt =====
-- The parts of the start of a container: the events that they send, and what holds after them.
use native_kubelet.Base.{
  ℕ, ◌+◌, Str, Bool, true, false, if◌then◌else◌, Option, none, some, List, [], ◌∷◌, ◌++◌, map, ◌≡◌,
  refl, ◌∙◌, arith,
}
use native_kubelet.Result.{ok, err, panic}
use native_kubelet.Errdefs.{Error}
use native_kubelet.Native.Process.{ContainerProcess}
use native_kubelet.Native.Download.{VolumeKind}
use native_kubelet.Native.Start.{
  RunEvent, pulled, unzipped, process_finish, Machine, Runner, Stepped, send, and_then, after_pull,
  after_unzip, download_event,
}

abbrev pub is_finish : RunEvent → ℕ
is_finish (process_finish pid e) = 1
is_finish _ = 0

-- The events ContainerProcessFinish among those sent
abbrev pub finishes : List RunEvent → ℕ
finishes [] = 0
finishes (e ∷ es) = is_finish e + finishes es

pub finishes-append : (xs ys : List RunEvent) → finishes (xs ++ ys) ≡ finishes xs + finishes ys
finishes-append [] ys = omega arith
finishes-append (x ∷ xs) ys = omega (arith, finishes-append xs ys)

pub finishes-download :
    (es : List (VolumeKind × Option Error)) → finishes (map download_event es) ≡ 0
finishes-download [] = refl
finishes-download (e ∷ es) = omega (arith, finishes-download es)

-- The image and the files of the container are there.
abbrev pub IsPrepared : ContainerProcess → Type 0
IsPrepared p =
    (p.image_pulled ≡ true)
    × (p.image_unzipped ≡ true)
    × (p.config_map_download ≡ true)
    × (p.secret_download ≡ true)

-- What the host documents of its operations, for the worlds that have the image and those that have
-- it unpacked: a pull and an unpacking that succeed bring them about, and nothing else undoes them.
pub record Prepares {W : Type 0} (machine : Machine W) (Pulled Unzipped : W → Type 0) : Type 0 where
  pub pulls : (w : W) → (machine.pull_image w).1 ≡ none → Pulled (machine.pull_image w).0
  pub unzips :
      (w : W) → Pulled w → (machine.unzip_image w).1 ≡ none → Unzipped (machine.unzip_image w).0
  pub pull_keeps : (w : W) → Unzipped w → Unzipped (machine.pull_image w).0
  pub unzip_keeps : (w : W) → Pulled w → Pulled (machine.unzip_image w).0
  pub write_keeps :
      (w : W) (file bytes : Str)
      → Pulled w × Unzipped w
      → Pulled (machine.files.write_file w file bytes).0
        × Unzipped (machine.files.write_file w file bytes).0
  pub open_keeps :
      (w : W)
      → Pulled w × Unzipped w
      → Pulled (machine.open_log w).0 × Unzipped (machine.open_log w).0
  pub start_keeps :
      (w : W) (envs : List Str)
      → Pulled w × Unzipped w
      → Pulled (machine.start w envs).0 × Unzipped (machine.start w envs).0
  pub wait_keeps :
      (w : W) (pid : ℕ)
      → Pulled w × Unzipped w
      → Pulled (machine.wait_dead w pid).0 × Unzipped (machine.wait_dead w pid).0

module _ {W : Type 0} (Pulled Unzipped : W → Type 0) where
  -- The flags of the process are true of the host.
  pub record IsHonest (r : Runner W) : Type 0 where
    pub pulled : r.process.image_pulled ≡ true → Pulled r.world
    pub unzipped : r.process.image_unzipped ≡ true → Unzipped r.world

  abbrev pub IsPulled : Runner W → Type 0
  IsPulled r =
      (r.process.image_pulled ≡ true)
      × Pulled r.world
      × (r.process.image_unzipped ≡ true → Unzipped r.world)

  abbrev pub IsUnzipped : Runner W → Type 0
  IsUnzipped r =
      ((r.process.image_pulled ≡ true) × (r.process.image_unzipped ≡ true))
      × (Pulled r.world × Unzipped r.world)

  abbrev pub IsReady : Runner W → Type 0
  IsReady r = IsPrepared r.process × (Pulled r.world × Unzipped r.world)

module _ {W : Type 0} where
  -- A part of the start: no ContainerProcessFinish, and `P` when there is no error.
  abbrev pub Part : (Runner W → Type 0) → Runner W → Stepped W → Type 0
  Part P r (s, ok _) = (finishes s.events ≡ finishes r.events) × P s
  Part P r (s, err e) = finishes s.events ≡ finishes r.events
  Part P r (s, panic) = finishes s.events ≡ finishes r.events

  pub send-finishes :
      (e : RunEvent) (r : Runner W) → finishes (send e r).events ≡ is_finish e + finishes r.events
  send-finishes e r = omega (arith, finishes-append r.events (e ∷ []))

  pub quiet-finishes :
      (e : RunEvent) (r : Runner W)
      → is_finish e ≡ 0
      → finishes (send e r).events ≡ finishes r.events
  quiet-finishes e r z = omega (arith, send-finishes e r, z)

  pub and_then-Part :
      (P Q : Runner W → Type 0) (r : Runner W) (x : Stepped W) (k : Runner W → Stepped W)
      → Part P r x
      → ((s : Runner W) → P s → Part Q s (k s))
      → Part Q r (and_then x k)
  and_then-Part P Q r (s, ok _) k (p, q) f = moved (k s) (f s q)
    where
      moved : (y : Stepped W) → Part Q s y → Part Q r y
      moved (t, ok _) (a, b) = (a ∙ p, b)
      moved (t, err e) a = a ∙ p
      moved (t, panic) a = a ∙ p
  and_then-Part P Q r (s, err e) k p f = p
  and_then-Part P Q r (s, panic) k p f = p

  pub if-Part :
      (P : Runner W → Type 0) (r : Runner W) (b : Bool) (x y : Stepped W)
      → (b ≡ true → Part P r x)
      → (b ≡ false → Part P r y)
      → Part P r (if b then x else y)
  if-Part P r true x y p q = p refl
  if-Part P r false x y p q = q refl

  -- An event that is no finish may come before.
  pub sent-Part :
      (P : Runner W → Type 0) (e : RunEvent) (r : Runner W) (x : Stepped W)
      → is_finish e ≡ 0
      → Part P (send e r) x
      → Part P r x
  sent-Part P e r (s, ok _) z (p, q) = (omega (arith, send-finishes e r, p), q)
  sent-Part P e r (s, err x) z p = omega (arith, send-finishes e r, p)
  sent-Part P e r (s, panic) z p = omega (arith, send-finishes e r, p)

module _ {W : Type 0} (Pulled Unzipped : W → Type 0) where
  pub after_pull-Part :
      (r : Runner W) (x : W × Option Error)
      → (x.1 ≡ none → Pulled x.0)
      → (r.process.image_unzipped ≡ true → Unzipped x.0)
      → Part (IsPulled Pulled Unzipped) r (after_pull r x)
  after_pull-Part r (w, some e) p u = quiet-finishes (pulled (some e)) r refl
  after_pull-Part r (w, none) p u = (quiet-finishes (pulled none) r refl, (refl, p refl, u))

  pub after_unzip-Part :
      (r : Runner W) (x : W × Option Error)
      → r.process.image_pulled ≡ true
      → Pulled x.0
      → (x.1 ≡ none → Unzipped x.0)
      → Part (IsUnzipped Pulled Unzipped) r (after_unzip r x)
  after_unzip-Part r (w, some e) h p u = quiet-finishes (unzipped (some e)) r refl
  after_unzip-Part r (w, none) h p u =
      (quiet-finishes (unzipped none) r refl, ((h, refl), (p, u refl)))
