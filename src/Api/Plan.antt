-- ===== src/Api/Plan.antt =====
-- An abstract view of the catalog, which forgets names, the order of rows and the polling state; and the
-- steps that requests make on it.
use tca.Base.{
  ℕ, ◌≡◌, ◌⊎◌, Bool, true, false, not, ◌&&◌, ◌||◌, Option, List, [], ◌∷◌, ◌==◌, none, if◌then◌else◌,
}
use tca.Catalog.{Catalog, has_channel, has_group}
use tca.Groups.Plan.{group_of, put_plan, delete_plan, without}
use tca.Api.{
  Request, post_channel, patch_channel_request, delete_channel_request, post_group, patch_group,
  delete_group_request, put_membership, delete_membership,
}

-- Which channels and groups there are, and the group that a channel is in.
pub record Plan : Type 0 where
  pub channels : ℕ → Bool
  pub groups : ℕ → Bool
  pub group_of : ℕ → Option ℕ

abbrev pub view : Catalog → Plan
view c = record {
  channels = λ h. has_channel h c;
  groups = λ g. has_group g c;
  group_of = λ h. group_of h c;
}

abbrev pub Agrees {ℓ} : {A : Type ℓ} → (ℕ → A) → (ℕ → A) → Type ℓ
Agrees f g = (k : ℕ) → f k ≡ g k

abbrev pub IsSame : Plan → Plan → Type 0
IsSame p q = Agrees q.channels p.channels × Agrees q.groups p.groups × Agrees q.group_of p.group_of

-- A purged channel is in no group.
abbrev pub without_channel : ℕ → (ℕ → Option ℕ) → ℕ → Option ℕ
without_channel i plan k = if k == i then none else plan k

-- The step that a request makes.
abbrev pub PlanStep : Request → Plan → Plan → Type 0
PlanStep (post_channel account telegram name username) p q =
    IsSame p q
    ⊎ ((i : ℕ) × (p.channels i ≡ false)
        × Agrees q.channels (λ k. p.channels k || k == i)
        × Agrees q.groups p.groups
        × Agrees q.group_of p.group_of)
PlanStep (patch_channel_request i patch) p q = IsSame p q
PlanStep (delete_channel_request i false) p q = IsSame p q
PlanStep (delete_channel_request i true) p q =
    Agrees q.channels (λ k. p.channels k && not (i == k))
    × Agrees q.groups p.groups
    × Agrees q.group_of (without_channel i p.group_of)
PlanStep (post_group name description horizon) p q =
    (i : ℕ) × (p.groups i ≡ false)
    × Agrees q.channels p.channels
    × Agrees q.groups (λ k. p.groups k || k == i)
    × Agrees q.group_of p.group_of
PlanStep (patch_group i name description horizon) p q = IsSame p q
PlanStep (delete_group_request i) p q =
    Agrees q.channels p.channels
    × Agrees q.groups (λ k. p.groups k && not (i == k))
    × Agrees q.group_of (λ k. without i (p.group_of k))
PlanStep (put_membership g h) p q =
    Agrees q.channels p.channels
    × Agrees q.groups p.groups
    × Agrees q.group_of (put_plan g h (p.groups g) (p.channels h) p.group_of)
PlanStep (delete_membership g h) p q =
    Agrees q.channels p.channels
    × Agrees q.groups p.groups
    × Agrees q.group_of (delete_plan g h (p.groups g) p.group_of)

-- A run of the abstract plan.
abbrev pub PlanRun : List Request → Plan → Plan → Type 0
PlanRun [] p q = p ≡ q
PlanRun (r ∷ rs) p q = (p' : Plan) × PlanStep r p p' × PlanRun rs p' q
