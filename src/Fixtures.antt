-- ===== src/Fixtures.antt =====
-- The message types of lang/go/integration with the methods that fixture.codec.go has for them.
pub mod Inner
pub mod Minimal
pub mod BytesPool
pub mod TypedStrings
pub mod Patch
pub mod Fixture
pub mod Evidence
pub mod NumericOnly
pub mod PackedZigzag
pub mod External
pub mod Container
pub mod ValueContainer
pub mod CrossContainer
pub mod OneofPayload
pub mod MapHolder
pub mod BoolMapHolder
pub mod Tree
pub mod TimeHolder
pub mod Ends
