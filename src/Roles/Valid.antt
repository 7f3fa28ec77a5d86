-- ===== src/Roles/Valid.antt =====
-- What `validate_roles` of ar724/role_loader.py vouches for.
use ztrade_ares_7x.Base.{
  Bool-cases, all, All, In, all→In, any→In, String, ◌≡◌, sym, subst, inl, inr, true, false, some,
  List, [], ◌∷◌, arith, str_eq, eq_iff,
}
use ztrade_ares_7x.Base.Result.{>>=-eq-ok, ok}
use ztrade_ares_7x.Roles.{
  required_fields, required_role_ids, contains, same_set, load_role_yaml, accept, load_all, ids,
  stems, check_ids, validate_roles, RoleFile, Loaded,
}

-- No two of the loaded roles share an id, and none has an id of `seen`.
abbrev Fresh : List String → List Loaded → Type 0
Fresh seen [] = Unit
Fresh seen (l ∷ ls) = (contains seen l.id ≡ false) × Fresh (l.id ∷ seen) ls

abbrev pub HasFields : Loaded → Type 0
HasFields l = all (contains l.role.keys) required_fields ≡ true

accept_ok :
    (seen : List String) (l : Loaded) {l' : Loaded}
    → accept seen l ≡ ok l'
    → (contains seen l'.id ≡ false) × HasFields l'
unfolding accept
accept_ok seen l {l'} h = elim (Bool-cases (contains seen l.id)) [
  | inl e ↦ ground arith
  | inr e ↦ elim (Bool-cases (all (contains l.role.keys) required_fields)) [
    | inl k ↦
        let same : l ≡ l' = ground arith in
        subst (λ (r : Loaded). (contains seen r.id ≡ false) × HasFields r) same (e, k)
    | inr k ↦ ground arith
  ]
]

load_all_lem :
    (seen : List String) (fs : List RoleFile) {roles : List Loaded}
    → load_all seen fs ≡ ok roles
    → Fresh seen roles × All HasFields roles
unfolding load_all
load_all_lem seen [] {roles} h =
    let nil : [] ≡ roles = ground arith in
    subst (λ rs. Fresh seen rs × All HasFields rs) nil (tt, tt)
load_all_lem seen (f ∷ fs) {roles} h =
    let (l, _, h1) = >>=-eq-ok (load_role_yaml f) _ h in
    let (l', taken, h2) = >>=-eq-ok (accept seen l) _ h1 in
    let (rest, loaded_rest, h3) = >>=-eq-ok (load_all (l'.id ∷ seen) fs) _ h2 in
    let (fresh, fields) = load_all_lem (l'.id ∷ seen) fs {roles = rest} loaded_rest in
    let (new, has) = accept_ok seen l {l' = l'} taken in
    let split : l' ∷ rest ≡ roles = ground arith in
    subst (λ rs. Fresh seen rs × All HasFields rs) split ((new, fresh), (has, fields))

same_set-In : (xs ys : List String) → all (contains ys) xs ≡ true → (i : String) → In i xs → In i ys
same_set-In xs ys h i m =
    let (y, listed, e) = any→In (str_eq i) ys (all→In (contains ys) xs h i m) in
    subst (λ z. In z ys) (sym ((eq_iff i y).0 e)) listed

-- What a valid directory has.
pub record IsValid (fs : List RoleFile) (roles : List Loaded) : Type 0 where
  pub distinct : Fresh [] roles
  pub fields : All HasFields roles
  pub all_there : (i : String) → In i required_role_ids → In i (ids roles)
  pub no_other : (i : String) → In i (ids roles) → In i required_role_ids
  pub own_file : (i : String) → In i required_role_ids → In i (stems fs)

-- If the validation returns roles, their ids are distinct and are exactly the four required ones,
-- each role has all required fields, and each required id has a file of its name.
pub validate_roles-IsValid :
    (fs : List RoleFile) (roles : List Loaded)
    → validate_roles (some fs) ≡ ok roles
    → IsValid fs roles
unfolding validate_roles
validate_roles-IsValid fs roles h =
    let (loaded, e, checked) = >>=-eq-ok (load_all [] fs) (check_ids fs) h in
    let (distinct, fields) = load_all_lem [] fs {roles = loaded} e in
    let same : loaded ≡ roles = ground arith in
    let sets : same_set (ids loaded) required_role_ids ≡ true = ground arith in
    let files : all (contains (stems fs)) required_role_ids ≡ true = ground arith in
    subst (IsValid fs) same (record {
      distinct = distinct;
      fields = fields;
      all_there = same_set-In required_role_ids (ids loaded) (ground arith);
      no_other = same_set-In (ids loaded) required_role_ids (ground arith);
      own_file = same_set-In required_role_ids (stems fs) files;
    })
