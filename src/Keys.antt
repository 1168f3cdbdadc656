-- ===== src/Keys.antt =====
-- How records get their keys on a medium: src/kvtsjl/schema/blob_ops.py (escaping),
-- src/kvtsjl/scope.py (logical prefixes), src/kvtsjl/bind/namespace.py (bindings) and
-- src/kvtsjl/store/schema/kvset.py (the composed key and its decoding).
pub mod Text
pub mod Escape
pub mod Scope
pub mod Binding
pub mod KvSet
pub mod Codec
mod Tests
