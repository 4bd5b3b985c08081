-- ===== src/Webhook/Mounts.antt =====
-- The volume that the sidecar shares with the application.
use sqlite_operator.Base.{
  ◌≡◌, refl, inl, inr, true, false, String, none, some, List, [], ◌∷◌, ◌++◌, ap, Option, Bool-cases,
}
use text.Mathlib.TextEquality.{starts_with_iff}
use sqlite_operator.Base.{◌↔◌, ◌⊎◌, ◌<>◌, ◌==◌, sym, eq_iff, arith}
use sqlite_operator.Kube.Objects.{VolumeMount}
use sqlite_operator.Webhook.Injector.{covers, find_mount}

-- No mount of a list covers the path.
abbrev pub NoneCovers : String → List VolumeMount → Type 0
NoneCovers db_path [] = Unit
NoneCovers db_path (vm ∷ vms) = (covers db_path vm ≡ false) × NoneCovers db_path vms

-- The first mount that covers the path, with those before and behind it.
abbrev pub IsFirstCover : String → List VolumeMount → VolumeMount → Type 0
IsFirstCover db_path vms vm =
    (before : List VolumeMount) × (after : List VolumeMount) × (vms ≡ before ++ (vm ∷ after))
    × NoneCovers db_path before
    × (covers db_path vm ≡ true)

-- The specification of the search, by its answer.
abbrev pub Answers : String → List VolumeMount → Option VolumeMount → Type 0
Answers db_path vms none = NoneCovers db_path vms
Answers db_path vms (some vm) = IsFirstCover db_path vms vm

abbrev further :
    (db_path : String) (vm : VolumeMount) (vms : List VolumeMount) (r : Option VolumeMount)
    → covers db_path vm ≡ false
    → Answers db_path vms r
    → Answers db_path (vm ∷ vms) r
further db_path vm vms none c a = (c, a)
further db_path vm vms (some m) c (before, after, e, n, t) =
    (vm ∷ before, after, ap (λ l. vm ∷ l) e, (c, n), t)

-- The search answers with the first mount that covers the path of the database, and with none
-- exactly where no mount covers it.
pub find_mount-Answers :
    (db_path : String) (vms : List VolumeMount) → Answers db_path vms (find_mount db_path vms)
unfolding find_mount
find_mount-Answers db_path [] = tt
find_mount-Answers db_path (vm ∷ vms) = elim (Bool-cases (covers db_path vm)) [
  | inl t ↦ rw t ([], vms, refl, tt, t)
  | inr f ↦
      rw f (further db_path vm vms (find_mount db_path vms) f (find_mount-Answers db_path vms))
]

-- A mount covers the path of the database exactly where it is mounted at the path itself, or at a
-- text that the path continues with a slash.
pub covers_iff :
    (db_path : String) (vm : VolumeMount)
    → (covers db_path vm ≡ true)
      ↔ ((vm.mount_path ≡ db_path) ⊎ ((rest : String) × (db_path ≡ (vm.mount_path <> "/") <> rest)))
covers_iff db_path vm =
    let here = eq_iff vm.mount_path db_path in
    let below = starts_with_iff db_path (vm.mount_path <> "/") in
    (
      λ h. elim (Bool-cases (vm.mount_path == db_path)) [
        | inl t ↦ inl (here.0 t)
        | inr f ↦ let (rest, e) = below.0 (ground arith) in inr (rest, sym e)
      ],
      λ h. elim h [
        | inl e ↦ ground arith
        | inr (rest, e) ↦ let b = below.1 (rest, sym e) in ground arith
      ],
    )
