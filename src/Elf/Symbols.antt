-- ===== src/Elf/Symbols.antt =====
-- include/elf.hpp: the types, the bindings and the visibilities of symbols, by the numbers of elf.h. The
-- functions that make them are members, which do not use the object that they are called on.
use gbas.Prelude.{ℕ}

-- `ISection::Type`.
pub record SymbolType : Type 0 where
  pub type : ℕ

abbrev pub default_type : SymbolType
default_type = record { type = 0 }

abbrev no_type : SymbolType → SymbolType
no_type _ = record { type = 0 }

abbrev object : SymbolType → SymbolType
object _ = record { type = 1 }

abbrev function : SymbolType → SymbolType
function _ = record { type = 2 }

abbrev section : SymbolType → SymbolType
section _ = record { type = 3 }

abbrev file : SymbolType → SymbolType
file _ = record { type = 4 }

-- `ISection::Binding`.
pub record Binding : Type 0 where
  pub binding : ℕ

abbrev pub default_binding : Binding
default_binding = record { binding = 1 }

abbrev local : Binding → Binding
local _ = record { binding = 0 }

abbrev pub global : Binding → Binding
global _ = record { binding = 1 }

abbrev weak : Binding → Binding
weak _ = record { binding = 2 }

-- `ISection::Visibility`.
pub record Visibility : Type 0 where
  pub visibility : ℕ

abbrev pub default_visibility : Visibility
default_visibility = record { visibility = 0 }

abbrev default_ : Visibility → Visibility
default_ _ = record { visibility = 0 }

abbrev internal : Visibility → Visibility
internal _ = record { visibility = 1 }

abbrev hidden : Visibility → Visibility
hidden _ = record { visibility = 2 }

abbrev protected_ : Visibility → Visibility
protected_ _ = record { visibility = 3 }
