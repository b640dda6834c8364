-- ===== src/Resource/KernelModule/Laws.antt =====
-- The kernel modules converge: after a successful `Apply` they are loaded and in the drop-in file.
use node_configurator.Prelude.{
  Bool, true, false, ◌||◌, List, [], ◌∷◌, ◌++◌, ◌≡◌, refl, sym, ap, ◌∙◌, arith, Bool-cases, inl,
  inr,
}
use node_configurator.Text.{Text, codes, contains, text_eq}
use node_configurator.Text.Equality.{text_eq→eq}
use node_configurator.System.{FilePath, value, Outcome, done, fail, Os}
use node_configurator.System.Post.{
  Post, Post-weaken, Triple, then_with, then_next, in_context, returned, Anything,
}
use node_configurator.System.Loop.{for_each}
use node_configurator.Sysutil.Paths.{path}
use node_configurator.Sysutil.Files.{HasFiles}
use node_configurator.Resource.KernelModule.{
  KernelModuleResource, loaded_modules, load_module, load_modules,
}

abbrev pub modules_path : KernelModuleResource → FilePath
modules_path r = path r.env (codes "proc" ∷ codes "modules" ∷ [])

-- The kernel lists at least the modules that meet a test.
pub record Lists (os : Os) (r : KernelModuleResource) (must : Text → Bool) (s : os.State)
    : Type 0 where
  pub loaded : List Text
  pub is : loaded_modules os r s ≡ value loaded
  pub has : (m : Text) → must m ≡ true → contains loaded m ≡ true

-- What the resource relies on in `modprobe`: a module that it loads is listed, next to those that
-- were. This holds for modules that are not built into the kernel.
pub record HasModules (os : Os) (r : KernelModuleResource) : Type 0 where
  pub modprobe_lists :
      (m : Text) (must : Text → Bool) (s t : os.State) (out : Text)
      → Lists os r must s
      → os.run (codes "modprobe") (m ∷ []) s ≡ done out t
      → Lists os r (λ n. must n || text_eq m n) t

module _ (os : Os) (r : KernelModuleResource) (files : HasFiles os)
    (modules : HasModules os r) where
  open os use {State, read_file, run}

  modprobe_lem :
      (m : Text) (must : Text → Bool)
      → Triple
          (Lists os r must)
          (run (codes "modprobe") (m ∷ []))
          (λ _. Lists os r (λ n. must n || text_eq m n))
          Anything
  modprobe_lem m must = record { run = λ s l. listed s (run (codes "modprobe") (m ∷ []) s) l refl }
    where
      listed :
          (s : State) (o : Outcome State Text)
          → Lists os r must s
          → run (codes "modprobe") (m ∷ []) s ≡ o
          → Post (λ _. Lists os r (λ n. must n || text_eq m n)) Anything o
      listed s (done out t) l e = modules.modprobe_lists m must s t out l e
      listed s (fail x t) l e = tt

  already :
      (m : Text) (must : Text → Bool) (s : State)
      → must m ≡ true
      → Lists os r must s
      → Lists os r (λ n. must n || text_eq m n) s
  already m must s h l = record { loaded = l.loaded; is = l.is; has = λ n e. l.has n (same n e) }
    where
      same : (n : Text) → (must n || text_eq m n) ≡ true → must n ≡ true
      same n e = elim (Bool-cases (text_eq m n)) [
        | inl k ↦ ap must (sym (text_eq→eq m n k)) ∙ h
        | inr k ↦ ground arith
      ]

  load_module_lem :
      (loaded : List Text) (m : Text) (must : Text → Bool)
      → (contains loaded m ≡ true → must m ≡ true)
      → Triple
          (Lists os r must)
          (load_module os r loaded m)
          (λ _. Lists os r (λ n. must n || text_eq m n))
          Anything
  unfolding load_module
  load_module_lem loaded m must h = record {
    run = λ s l. elim (Bool-cases (contains loaded m)) [
      | inl e ↦ rw (load_module, e) (already m must s (h e) l)
      | inr e ↦
          rw (load_module, e)
            ((then_with (in_context (codes "modprobe " ++ m) (modprobe_lem m must))
                (λ out. returned tt)).run
              s l)
    ];
  }

  pub Lists-weaken :
      (must may : Text → Bool) (s : State)
      → ((n : Text) → may n ≡ true → must n ≡ true)
      → Lists os r must s
      → Lists os r may s
  Lists-weaken must may s f l = record {
    loaded = l.loaded;
    is = l.is;
    has = λ n e. l.has n (f n e);
  }

  pub load_modules_lem :
      (loaded ms : List Text) (must : Text → Bool)
      → ((n : Text) → contains loaded n ≡ true → must n ≡ true)
      → Triple
          (Lists os r must)
          (load_modules os r loaded ms)
          (λ _. Lists os r (λ n. must n || contains ms n))
          Anything
  unfolding load_modules for_each contains
  load_modules_lem loaded [] must h = record {
    run = λ s l. Lists-weaken must (λ n. must n || false) s (λ n e. ground arith) l;
  }
  load_modules_lem loaded (m ∷ ms) must h =
      then_next (load_module_lem loaded m must (h m)) (record {
        run = λ s l.
            Post-weaken (λ _. Lists os r (λ n. (must n || text_eq m n) || contains ms n))
              (λ _. Lists os r (λ n. must n || (text_eq m n || contains ms n))) Anything Anything
              (load_modules os r loaded ms s)
              ((load_modules_lem loaded ms (λ n. must n || text_eq m n)
                  (λ n e. ground (arith, h n e))).run
                s l)
              (λ u t k. Lists-weaken _ _ t (λ n e. ground arith) k) (λ t k. tt);
      })
