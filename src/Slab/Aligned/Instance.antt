-- ===== src/Slab/Aligned/Instance.antt =====
-- `System` fills the interface of slab systems, over any backing allocator and for any layout that
-- fits its blocks. `memory` is what a new block holds.
use allocators_rs.Base.{ℕ, Option, none, [], Checked, done, Returns, returns}
use allocators_rs.Slab.Init.{InitSystem}
use allocators_rs.Slab.Color.{new, new-at_round}
use allocators_rs.Slab.System.{Grown, SlabSystem}
use allocators_rs.Slab.Aligned
use allocators_rs.Slab.Aligned.{Backing, System, SlabHeader, ptr_to_slab}
use allocators_rs.Slab.Aligned.Place.{Config, slab_of}
use allocators_rs.Slab.Aligned.Laws.{
  free, Ok, is_full-free, is_empty-free, alloc-free, dealloc-free, dealloc_slab-free,
}
use allocators_rs.Slab.Aligned.Grow.{Made, alloc_slab-Made, alloc-Ok, dealloc-Ok, dealloc_slab-Ok}

module _ (I : InitSystem) (B : Backing) (c : Config I B) where
  pub record Good : Type 0 where
    pub system : System B
    pub ok : Ok I B c system

  -- What is returned, with the invariant.
  pub keep_ok :
      (s : System B) (m : Checked (Option ℕ × System B))
      → Returns (Made I B c s) m
      → Checked (Option ℕ × Good)
  keep_ok s m (returns {a} made) = done (a.0, record { system = a.1; ok = made.0 })

  pub keep_ok-Grown :
      (s : System B) (m : Checked (Option ℕ × System B)) (made : Returns (Made I B c s) m)
      → Returns
          (λ r. Grown (slab_of I B) c.l.num_obj (free I B s) r.0 (free I B r.1.system))
          (keep_ok s m made)
  unfolding keep_ok
  keep_ok-Grown s m (returns made) = returns made.1

  -- `System::from_config_data`, on a new backing allocator.
  unfoldable pub fresh : B.State → Good
  fresh alloc = record {
    system = record {
      color_settings = new c.l.layout.align c.unused;
      alloc = alloc;
      headers = λ x. none;
      dropped = [];
    };
    ok = record {
      round = 0;
      colors = new-at_round c.l.layout.align c.unused;
      live = λ x h e. absurd cc;
    };
  }

  abbrev pub aligned_system : (ℕ → ℕ) → SlabSystem I
  aligned_system memory = record {
    State = Good;
    capacity = c.l.num_obj;
    slab_of = slab_of I B;
    free = λ s. free I B s.system;
    alloc_slab = λ s. keep_ok s.system _ (alloc_slab-Made I B c memory s.system s.ok);
    dealloc_slab = λ s x. record {
      system = Aligned.dealloc_slab I B c.l s.system x;
      ok = dealloc_slab-Ok I B c s.system x s.ok;
    };
    is_full = λ s x. Aligned.is_full I B c.l s.system x;
    is_empty = λ s x. Aligned.is_empty I B c.l s.system x;
    alloc = λ s x. (
      (Aligned.alloc I B c.l s.system x).0,
      record { system = (Aligned.alloc I B c.l s.system x).1; ok = alloc-Ok I B c s.system x s.ok },
    );
    dealloc = λ s p status. (
      (Aligned.dealloc I B c.l s.system p status).0,
      record {
        system = (Aligned.dealloc I B c.l s.system p status).1;
        ok = dealloc-Ok I B c s.system p status s.ok;
      },
    );
    capacity_pos = c.fits.some_objects;
    alloc_slab-Grown = λ s. keep_ok-Grown s.system _ (alloc_slab-Made I B c memory s.system s.ok);
    dealloc_slab_lem = λ s x ps e full. dealloc_slab-free I B c s.system x ps e;
    is_full_lem = λ s x ps e. is_full-free I B c s.system x ps e;
    is_empty_lem = λ s x ps e. is_empty-free I B c s.system x ps e;
    alloc_lem = λ s x p ps e. alloc-free I B c s.system x p ps e;
    dealloc_lem = λ s p ps status e room. dealloc-free I B c s.system p ps status s.ok e;
  }
