-- ===== src/Tests.antt =====
-- The theorems at concrete inputs, and runs of the model.
mod Data
mod Catalog
mod Plans
mod Supermarkets
mod Cooking
mod Freezer
mod Limits
mod Entitlements
mod Shopping
mod Billing
mod Dunning
mod Merge
mod Auth
